-- ===== src/Notapp/Wire/Strings.antt =====
-- `read_string` reads what `send_string` sends.
use mathlib.Core.List.{append_assoc, append-nil}
use c380_1code.Base.{
  ℕ, ◌+◌, ◌<◌, ◌≡◌, refl, sym, ap, ◌∙◌, false, none, some, [], ◌∷◌, ◌++◌, ◌==◌, if◌then◌else◌,
  length, length-append, All, arith,
}
use c380_1code.Notapp.Args.{Str}
use c380_1code.Notapp.Wire.{
  Bytes, take, encode, decode, size_size, disconnect_code, Socket, is_disconnect, send_string,
  c_string, read_string, read_text,
}
use c380_1code.Notapp.Wire.Numbers.{
  length-encode, decode-encode, take-append, is_disconnect-encode, is_disconnect-ascii,
}

-- the characters of a text: ASCII, and not the NUL that ends it
abbrev pub IsAscii : Str → Type 0
IsAscii = All (λ c. (0 < c) × (c < 128))

pub c_string-append : (s : Str) (junk : Bytes) → IsAscii s → c_string (s ++ 0 ∷ junk) ≡ s
unfolding c_string
c_string-append [] junk h = refl
c_string-append (c ∷ s) junk ((pos, small), rest) =
    let on : (c == 0) ≡ false = ground (arith, pos) in rw (on, c_string-append s junk rest) refl

pub text_start : (s : Str) (junk : Bytes) → IsAscii s → is_disconnect (s ++ 0 ∷ junk) ≡ false
text_start [] junk h = is_disconnect-ascii 0 junk (omega arith)
text_start (c ∷ s) junk ((pos, small), rest) = is_disconnect-ascii c (s ++ 0 ∷ junk) small

-- a `read` of what has been sent
pub get-whole :
    (socket : Socket) (n : ℕ) (bs rest : Bytes)
    → length bs ≡ n
    → socket.read n (bs ++ rest) ≡ some (bs, rest)
get-whole socket n bs rest e = rw (sym e) (socket.whole bs rest)

pub get-take : (n : ℕ) (bs rest : Bytes) → length bs ≡ n → take n (bs ++ rest) ≡ bs
get-take n bs rest e = rw (sym e) (take-append bs rest)

read_text-got :
    (socket : Socket) (junk : Bytes) (n : ℕ) (str rest : Bytes)
    → length str ≡ n
    → read_text socket junk n (str ++ rest)
      ≡ (if is_disconnect (str ++ junk) then none else some (c_string (str ++ junk)), rest)
unfolding read_text
read_text-got socket junk n str rest e = rw (get-whole socket n str rest e, read_text) refl

pub read_string-got :
    (socket : Socket) (size_junk junk : Bytes) (size rest : Bytes)
    → length size ≡ size_size
    → read_string socket size_junk junk (size ++ rest) ≡ (
        if is_disconnect (take size_size (size ++ size_junk))
        then (none, rest)
        else read_text socket junk (decode (take size_size (size ++ size_junk))) rest)
unfolding read_string
read_string-got socket size_junk junk size rest e =
    rw (get-whole socket size_size size rest e, read_string) refl

-- What `send_string` has sent of an ASCII text of fewer than 2 ^ 32 - 11 characters `read_string`
-- reads back, with nothing of what follows it, whatever memory held before.
pub read_string-send_string :
    (socket : Socket) (size_junk junk : Bytes) (string : Str) (rest : Bytes)
    → IsAscii string
    → length string + 1 < disconnect_code
    → read_string socket size_junk junk (send_string string ++ rest) ≡ (some string, rest)
unfolding send_string
read_string-send_string socket size_junk junk string rest ascii room =
    let size = encode size_size (length string + 1) in
    let text : Bytes = string ++ 0 ∷ [] in
    let got_size : take size_size (size ++ size_junk) ≡ size =
      get-take size_size size size_junk (length-encode 8 (length string + 1)) in
    let value : decode (encode size_size (length string + 1)) ≡ length string + 1 =
      decode-encode 8 (length string + 1) (omega (arith, room)) in
    let ok_size : is_disconnect (encode size_size (length string + 1)) ≡ false =
      ap is_disconnect (sym (append-nil size)) ∙ is_disconnect-encode (length string + 1) [] room in
    ap (read_string socket size_junk junk) (append_assoc size text rest)
    ∙ (read_string-got socket size_junk junk size (text ++ rest)
          (length-encode 8 (length string + 1))
        ∙ rw (got_size, ok_size, value)
            (read_text-got socket junk (length string + 1) text rest (length-append string (0 ∷ []))
              ∙ rw
                  (
                    append_assoc string (0 ∷ []) junk,
                    text_start string junk ascii,
                    c_string-append string junk ascii,
                  )
                  refl))
