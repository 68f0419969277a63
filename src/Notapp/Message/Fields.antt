-- ===== src/Notapp/Message/Fields.antt =====
-- A message is read back from its bytes.
use c380_1code.Base.{◌^◌, ◌<◌, ◌≡◌, refl, length, ◌++◌}
use c380_1code.Notapp.Wire.{Bytes, take, drop, encode, decode, field}
use c380_1code.Notapp.Wire.Numbers.{decode-encode}
use c380_1code.Notapp.Message.{ObserverMsg, observer_msg_size, encode_msg, decode_msg}

-- every number of the message is one of its type
pub record IsMessage (m : ObserverMsg) : Type 0 where
  pub type_room : m.msg_type < 2 ^ 32
  pub padding_room : m.padding < 2 ^ 32
  pub sec_room : m.tv.sec < 2 ^ 64
  pub usec_room : m.tv.usec < 2 ^ 64
  pub wd_room : m.wd < 2 ^ 32
  pub mask_room : m.mask < 2 ^ 32
  pub cookie_room : m.cookie < 2 ^ 32
  pub len_room : m.len < 2 ^ 32

pub length-encode_msg : (m : ObserverMsg) → length (encode_msg m) ≡ observer_msg_size
unfolding encode_msg encode
length-encode_msg m = refl

-- the numbers after their way through bytes
abbrev through_bytes : ObserverMsg → ObserverMsg
through_bytes m = record {
  msg_type = decode (encode 4 m.msg_type);
  padding = decode (encode 4 m.padding);
  tv = record { sec = decode (encode 8 m.tv.sec); usec = decode (encode 8 m.tv.usec) };
  wd = decode (encode 4 m.wd);
  mask = decode (encode 4 m.mask);
  cookie = decode (encode 4 m.cookie);
  len = decode (encode 4 m.len);
}

fields : (m : ObserverMsg) (rest : Bytes) → decode_msg (encode_msg m ++ rest) ≡ through_bytes m
unfolding decode_msg encode_msg encode field take drop
fields m rest = refl

pub decode_msg-encode_msg :
    (m : ObserverMsg) (rest : Bytes) → IsMessage m → decode_msg (encode_msg m ++ rest) ≡ m
decode_msg-encode_msg m rest h =
    rw
      (
        fields m rest,
        decode-encode 4 m.msg_type h.type_room,
        decode-encode 4 m.padding h.padding_room,
        decode-encode 8 m.tv.sec h.sec_room,
        decode-encode 8 m.tv.usec h.usec_room,
        decode-encode 4 m.wd h.wd_room,
        decode-encode 4 m.mask h.mask_room,
        decode-encode 4 m.cookie h.cookie_room,
        decode-encode 4 m.len h.len_room,
      )
      refl
