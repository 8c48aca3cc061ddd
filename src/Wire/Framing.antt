-- ===== src/Wire/Framing.antt =====
-- `read_frame` and `write_frame` (src/scs/wire/framing.py). A stream is the list of the bytes that
-- have not been read. The JSON codec is a parameter: `dumps` and `loads` fail as none.
use scs.Base.{
  ℕ, ◌+◌, ◌*◌, ◌/◌, ◌%◌, Bool, Option, none, some, List, [], ◌∷◌, ◌++◌, Outcome, ok, err, ◌>>◌,
  raise_if, frame_error, length, take, drop, ltb, ◌==◌, if◌then◌else◌,
}

abbrev pub Bytes : Type 0
Bytes = List ℕ

-- 16 * 1024 * 1024
abbrev pub max_frame_bytes : ℕ
max_frame_bytes = 16777216

abbrev pub frame_header_bytes : ℕ
frame_header_bytes = 4

-- `readexactly`: the bytes and the rest; a stream that ends early is used up.
abbrev pub read_exactly : ℕ → Bytes → Option Bytes × Bytes
read_exactly n stream =
    if ltb (length stream) n then (none, []) else (some (take n stream), drop n stream)

-- `int.from_bytes(header, byteorder="big")`
abbrev pub from_bytes : ℕ → Bytes → ℕ
from_bytes high [] = high
from_bytes high (b ∷ bs) = from_bytes (high * 256 + b) bs

-- `struct.pack(">I", n)`, for n below 2 ** 32.
abbrev pub pack : ℕ → Bytes
pack n = (n / 16777216 % 256) ∷ (n / 65536 % 256) ∷ (n / 256 % 256) ∷ (n % 256) ∷ []

module _ {Json : Type 0} {Object : Type 0} (loads : Bytes → Option Json)
    (as_dict : Json → Option Object) (has_string_keys : Object → Bool)
    (dumps : Object → Option Bytes) where
  -- The checks of the decoded object.
  unfoldable pub decoded_object : Option Object → Outcome Object
  decoded_object none = err frame_error
  decoded_object (some values) = if has_string_keys values then ok values else err frame_error

  unfoldable pub decoded : Option Json → Outcome Object
  unfolding decoded_object
  decoded none = err frame_error
  decoded (some json) = decoded_object (as_dict json)

  -- `json.loads` and the checks after it.
  unfoldable pub decode : Bytes → Outcome Object
  unfolding decoded
  decode body = decoded (loads body)

  -- From the second `readexactly` on.
  unfoldable pub read_body : Option Bytes × Bytes → Outcome Object × Bytes
  unfolding decode
  read_body (none, rest) = (err frame_error, rest)
  read_body (some body, rest) = (decode body, rest)

  -- From the length on.
  unfoldable pub read_sized : ℕ → Bytes → Outcome Object × Bytes
  unfolding read_body
  read_sized body_length stream =
      if body_length == 0
      then (err frame_error, stream)
      else if ltb max_frame_bytes body_length
      then (err frame_error, stream)
      else read_body (read_exactly body_length stream)

  unfoldable pub read_header : Option Bytes × Bytes → Outcome Object × Bytes
  unfolding read_sized
  read_header (none, rest) = (err frame_error, rest)
  read_header (some header, rest) = read_sized (from_bytes 0 header) rest

  -- The object of the next frame, and what the stream still holds.
  unfoldable pub read_frame : Bytes → Outcome Object × Bytes
  unfolding read_header
  read_frame stream = read_header (read_exactly frame_header_bytes stream)

  -- From the length of the body on: what is written.
  unfoldable pub frame_body : Option Bytes → Outcome Bytes
  frame_body none = err frame_error
  frame_body (some body) = do
    raise_if (length body == 0) frame_error
    raise_if (ltb max_frame_bytes (length body)) frame_error
    ok (pack (length body) ++ body)

  unfoldable pub write_frame : Object → Outcome Bytes
  unfolding frame_body
  write_frame payload = frame_body (dumps payload)
