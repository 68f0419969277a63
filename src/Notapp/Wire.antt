-- ===== src/Notapp/Wire.antt =====
-- Assignment02/notapp_base.h and notapp_base.c: what goes over a socket. A socket is the list of the
-- bytes that are still to be read; numbers stand in it with their low byte first, as on the x86
-- machines that the programs are built for. `read` is not part of the repository: it is a parameter,
-- and `none` is its result -1. What memory holds behind the bytes that a `read` has written is an
-- argument too, `junk`. The signal handler and the clearing of the screen are not modelled.
pub mod Numbers
pub mod Strings
use c380_1code.Base.{
  ℕ, zero, suc, ◌+◌, ◌-◌, ◌*◌, ◌/◌, ◌%◌, ◌^◌, ◌≡◌, Bool, true, false, Option, none, some, List, [],
  ◌∷◌, ◌++◌, ◌==◌, if◌then◌else◌, length, ◌>>=◌,
}
use c380_1code.Notapp.Args.{Str}

abbrev pub Bytes : Type 0
Bytes = List ℕ

unfoldable pub take : ℕ → Bytes → Bytes
take zero bs = []
take (suc n) [] = []
take (suc n) (b ∷ bs) = b ∷ take n bs

unfoldable pub drop : ℕ → Bytes → Bytes
drop zero bs = bs
drop (suc n) [] = []
drop (suc n) (b ∷ bs) = drop n bs

-- what a `read` of these bytes into a memory leaves there
unfoldable pub overwrite : Bytes → Bytes → Bytes
overwrite bs memory = bs ++ drop (length bs) memory

-- `n` bytes of a number
unfoldable pub encode : ℕ → ℕ → Bytes
encode zero v = []
encode (suc n) v = (v % 256) ∷ encode n (v / 256)

unfoldable pub decode : Bytes → ℕ
decode [] = 0
decode (b ∷ bs) = b + 256 * decode bs

-- the number of `size` bytes that stands `offset` bytes behind the start of a memory
unfoldable pub field : (offset size : ℕ) → Bytes → ℕ
field offset size memory = decode (take size (drop offset memory))

-- `sizeof(int)` and `sizeof(size_t)`
abbrev pub int_size : ℕ
int_size = 4

abbrev pub size_size : ℕ
size_size = 8

abbrev pub buf_size : ℕ
buf_size = 1024

-- the bits of the `int` -10
abbrev pub disconnect_code : ℕ
disconnect_code = 2 ^ 32 - 10

-- what the code relies on: a `read` of no more than has been sent gets all that it asks for, and a
-- `read` from a connection that is closed and empty gets nothing
pub record Socket : Type 0 where
  pub read : ℕ → Bytes → Option (Bytes × Bytes)
  pub whole : (bs rest : Bytes) → read (length bs) (bs ++ rest) ≡ some (bs, rest)
  pub closed : (n : ℕ) → read n [] ≡ some ([], [])

-- `*((int*)val) == DISCONNECT_CODE`, on the memory from `val` on
unfoldable pub is_disconnect : Bytes → Bool
is_disconnect memory = decode (take int_size memory) == disconnect_code

-- what `send_string` sends
unfoldable pub send_string : Str → Bytes
send_string string = encode size_size (length string + 1) ++ (string ++ 0 ∷ [])

-- the string that starts where the memory does
unfoldable pub c_string : Bytes → Str
c_string [] = []
c_string (c ∷ memory) = let rest = c_string memory in if c == 0 then [] else c ∷ rest

-- the second part of `read_string`, with `str_size`
unfoldable pub read_text : Socket → (junk : Bytes) → (str_size : ℕ) → Bytes → Option Str × Bytes
read_text socket junk str_size stream = elim (socket.read str_size stream) [
  | none ↦ (none, stream)
  | some (str, stream') ↦
      (if is_disconnect (str ++ junk) then none else some (c_string (str ++ junk)), stream')
]

-- the string, or NULL, and what is left to read; `size_junk` is what `str_size` held before
unfoldable pub read_string : Socket → (size_junk junk : Bytes) → Bytes → Option Str × Bytes
unfolding read_text
read_string socket size_junk junk stream = elim (socket.read size_size stream) [
  | none ↦ (none, stream)
  | some (size, stream') ↦
      (let str_size = take size_size (size ++ size_junk) in
        if is_disconnect str_size
        then (none, stream')
        else read_text socket junk (decode str_size) stream')
]

-- `is_dormant`, and the processes that the clients run beside their loop
unfoldable pub alert_activity : Bool → Bool
alert_activity is_dormant = false

-- after a sleep: whether SIGINT is raised, and `is_dormant`
unfoldable pub auto_kill : Bool → Bool × Bool
auto_kill is_dormant = (is_dormant, true)
