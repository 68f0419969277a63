-- ===== src/Notapp/Wire/Numbers.antt =====
-- Numbers as bytes, and back.
use native.Mathlib.Nat.{pow-suc}
use c380_1code.Base.{
  ℕ, zero, suc, ◌+◌, ◌*◌, ◌/◌, ◌%◌, ◌^◌, ◌<◌, ◌≤◌, ◌-◌, ◌≡◌, refl, ap, false, Bool-cases, inl, inr,
  [], ◌∷◌, ◌++◌, ◌==◌, length, arith,
}
use c380_1code.Notapp.Wire.{
  Bytes, take, drop, encode, decode, int_size, size_size, disconnect_code, is_disconnect,
}

pub length-encode : (n v : ℕ) → length (encode n v) ≡ n
unfolding encode
length-encode zero v = refl
length-encode (suc n) v = ap suc (length-encode n (v / 256))

-- A number below 256 ^ n is its `n` bytes.
pub decode-encode : (n v : ℕ) → v < 256 ^ n → decode (encode n v) ≡ v
unfolding decode encode
decode-encode zero v h = omega (arith, h)
decode-encode (suc n) v h =
    let power = pow-suc 256 n in
    let tail = decode-encode n (v / 256) (omega (arith, h, power)) in omega (arith, tail)

pub take-append : (bs rest : Bytes) → take (length bs) (bs ++ rest) ≡ bs
unfolding take
take-append [] rest = refl
take-append (b ∷ bs) rest = ap (λ l. b ∷ l) (take-append bs rest)

pub drop-append : (bs rest : Bytes) → drop (length bs) (bs ++ rest) ≡ rest
unfolding drop
drop-append [] rest = refl
drop-append (b ∷ bs) rest = drop-append bs rest

zero_plus : (n : ℕ) → 0 + n ≡ n
zero_plus n = omega arith

drop-nil : (n : ℕ) → drop n [] ≡ []
unfolding drop
drop-nil zero = refl
drop-nil (suc n) = refl

suc_plus : (m n : ℕ) → suc m + n ≡ suc (m + n)
suc_plus m n = omega arith

pub drop-add : (m n : ℕ) (bs : Bytes) → drop (m + n) bs ≡ drop n (drop m bs)
unfolding drop
drop-add zero n bs = rw (zero_plus n) refl
drop-add (suc m) n [] = rw (drop-nil (suc m + n), drop-nil n) refl
drop-add (suc m) n (b ∷ bs) = rw (suc_plus m n) (drop-add m n bs)

-- memory of which the first bytes have been written
pub length-drop : (n : ℕ) (bs : Bytes) → length (drop n bs) ≡ length bs - n
unfolding drop
length-drop zero bs = omega arith
length-drop (suc n) [] = omega arith
length-drop (suc n) (b ∷ bs) = omega (arith, length-drop n bs)

pub length-take : (n : ℕ) (bs : Bytes) → n ≤ length bs → length (take n bs) ≡ n
unfolding take
length-take zero bs h = refl
length-take (suc n) [] h = absurd (omega (arith, h))
length-take (suc n) (b ∷ bs) h = ap suc (length-take n bs (omega (arith, h)))

pub take-encode : (m k v : ℕ) (rest : Bytes) → take m (encode (m + k) v ++ rest) ≡ encode m v
unfolding take encode
take-encode zero k v rest = refl
take-encode (suc m) k v rest =
    let e : suc m + k ≡ suc (m + k) = omega arith in
    rw e (ap (λ l. (v % 256) ∷ l) (take-encode m k (v / 256) rest))

-- a number that is not the disconnect code is not taken for it
pub is_disconnect-encode :
    (v : ℕ) (rest : Bytes)
    → v < disconnect_code
    → is_disconnect (encode size_size v ++ rest) ≡ false
unfolding is_disconnect
is_disconnect-encode v rest h =
    let first : take int_size (encode size_size v ++ rest) ≡ encode int_size v =
      take-encode 4 4 v rest in
    let value = decode-encode 4 v (omega (arith, h)) in rw (first, value) (ground (arith, h))

not_code : (c x : ℕ) → c < 128 → ((c + 256 * x) == disconnect_code) ≡ false
not_code c x h = elim (Bool-cases ((c + 256 * x) == disconnect_code)) [
  | inr e ↦ e
  | inl e ↦
      let code : c + 256 * x ≡ disconnect_code = ground arith in absurd (omega (arith, code, h))
]

-- memory that starts with an ASCII character is not taken for it
pub is_disconnect-ascii : (c : ℕ) (rest : Bytes) → c < 128 → is_disconnect (c ∷ rest) ≡ false
unfolding is_disconnect take decode
is_disconnect-ascii c rest h = not_code c (decode (take 3 rest)) h

pub is_disconnect-encode_int :
    (v : ℕ) (rest : Bytes) → v < disconnect_code → is_disconnect (encode int_size v ++ rest) ≡ false
unfolding is_disconnect
is_disconnect-encode_int v rest h =
    let first : take int_size (encode int_size v ++ rest) ≡ encode int_size v =
      take-encode 4 0 v rest in
    let value = decode-encode 4 v (omega (arith, h)) in rw (first, value) (ground (arith, h))
