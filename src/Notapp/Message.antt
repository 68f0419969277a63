-- ===== src/Notapp/Message.antt =====
-- Assignment02/notapp_base.h and notapp_base.c: the message that an observer client sends for an
-- event, and the bytes that it has in memory on x86-64. An `int` stands by its bits.
pub mod Fields
use c380_1code.Base.{ℕ, ◌++◌}
use c380_1code.Notapp.Wire.{Bytes, encode, field}

-- `enum msg_type`
abbrev pub notification : ℕ
notification = 0

abbrev pub disconnection_observer : ℕ
disconnection_observer = 1

-- `struct timeval`
pub record Time : Type 0 where
  pub sec : ℕ
  pub usec : ℕ

-- `padding` is what the four bytes hold that bring `tv` to a multiple of eight
pub record ObserverMsg : Type 0 where
  pub msg_type : ℕ
  pub padding : ℕ
  pub tv : Time
  pub wd : ℕ
  pub mask : ℕ
  pub cookie : ℕ
  pub len : ℕ

-- `sizeof(struct observer_msg)`
abbrev pub observer_msg_size : ℕ
observer_msg_size = 40

unfoldable pub encode_msg : ObserverMsg → Bytes
encode_msg m =
    encode 4 m.msg_type
    ++ (encode 4 m.padding
        ++ (encode 8 m.tv.sec
            ++ (encode 8 m.tv.usec
                ++ (encode 4 m.wd ++ (encode 4 m.mask ++ (encode 4 m.cookie ++ encode 4 m.len))))))

-- the message that stands in a memory
unfoldable pub decode_msg : Bytes → ObserverMsg
decode_msg memory = record {
  msg_type = field 0 4 memory;
  padding = field 4 4 memory;
  tv = record { sec = field 8 8 memory; usec = field 16 8 memory };
  wd = field 24 4 memory;
  mask = field 28 4 memory;
  cookie = field 32 4 memory;
  len = field 36 4 memory;
}

-- `junk` is what the rest of the message held before
unfoldable pub new_disconnect_observer_message : (junk : ObserverMsg) → ObserverMsg
new_disconnect_observer_message junk = record junk { msg_type = disconnection_observer }
