-- ===== src/Wire/Frames.antt =====
-- What reading and writing frames guarantees (src/scs/wire/framing.py).
use scs.Base.{
  ℕ, suc, zero, ◌+◌, ◌≤◌, ◌<◌, ◌≡◌, refl, sym, ap, ◌∙◌, Bool, false, Option, some, [], ◌∷◌, ◌++◌,
  ok, err, raise_if, frame_error, length, take, drop, ltb, ◌==◌, arith, Bool-cases, Option-cases,
  inl, inr, ◌⊎◌, >>=-eq-ok,
}
use scs.Wire.Framing.{
  Bytes, max_frame_bytes, frame_header_bytes, read_exactly, from_bytes, pack, decode, read_body,
  read_sized, read_header, read_frame, frame_body, write_frame,
}

from_bytes-pack : (n : ℕ) → n ≤ max_frame_bytes → from_bytes 0 (pack n) ≡ n
from_bytes-pack n h = omega arith

length-append : (xs ys : Bytes) → length (xs ++ ys) ≡ length xs + length ys
length-append [] ys = omega arith
length-append (x ∷ xs) ys = omega (arith, length-append xs ys)

take-append : (xs ys : Bytes) → take (length xs) (xs ++ ys) ≡ xs
take-append [] ys = refl
take-append (x ∷ xs) ys = ap (λ zs. x ∷ zs) (take-append xs ys)

drop-append : (xs ys : Bytes) → drop (length xs) (xs ++ ys) ≡ ys
drop-append [] ys = refl
drop-append (x ∷ xs) ys = drop-append xs ys

length-drop : (n : ℕ) (xs : Bytes) → length xs ≤ n + length (drop n xs)
length-drop zero xs = omega arith
length-drop (suc n) [] = omega arith
length-drop (suc n) (x ∷ xs) = omega (arith, length-drop n xs)

read_exactly-append : (xs ys : Bytes) → read_exactly (length xs) (xs ++ ys) ≡ (some xs, ys)
read_exactly-append xs ys =
    let enough : ltb (length (xs ++ ys)) (length xs) ≡ false =
      let l = length-append xs ys in ground arith in
    rw (enough, take-append xs ys, drop-append xs ys)

-- `readexactly` uses up at most what was asked for.
read_exactly-bounded :
    (n : ℕ) (stream : Bytes) → length stream ≤ n + length (read_exactly n stream).1
read_exactly-bounded n stream = elim (Bool-cases (ltb (length stream) n)) [
  | inl e ↦ rw e (ground arith)
  | inr e ↦ rw e (length-drop n stream)
]

module _ {Json Object : Type 0} (loads : Bytes → Option Json) (as_dict : Json → Option Object)
    (has_string_keys : Object → Bool) (dumps : Object → Option Bytes) where
  -- A frame that was written is read as its body is decoded, whatever follows it in the stream, and
  -- the rest of the stream is what follows: frames never run into each other.
  pub read_frame-write_frame :
      (payload : Object) (frame rest : Bytes)
      → write_frame loads as_dict has_string_keys dumps payload ≡ ok frame
      → (body : Bytes) × (dumps payload ≡ some body)
        × (read_frame loads as_dict has_string_keys dumps (frame ++ rest)
            ≡ (decode loads as_dict has_string_keys dumps body, rest))
  unfolding write_frame frame_body read_frame read_header read_sized read_body
  read_frame-write_frame payload frame rest h = elim (Option-cases (dumps payload)) [
    | inl e ↦ absurd (ground arith)
    | inr (body, e) ↦
        let written = rw (e, write_frame, frame_body) at h in
        let (_, filled, h₁) = >>=-eq-ok (raise_if (length body == 0) frame_error) _ written in
        let (_, bounded, h₂) =
          >>=-eq-ok (raise_if (ltb max_frame_bytes (length body)) frame_error) _ h₁ in
        let some_bytes : (length body == 0) ≡ false = ground arith in
        let fits : ltb max_frame_bytes (length body) ≡ false = ground arith in
        let same : pack (length body) ++ body ≡ frame = ground arith in
        let whole : read_exactly frame_header_bytes ((pack (length body) ++ body) ++ rest)
            ≡ (some (pack (length body)), body ++ rest) =
          read_exactly-append (pack (length body)) (body ++ rest) in
        let size = from_bytes-pack (length body) (ground arith) in
        let sized : read_sized loads as_dict has_string_keys dumps (length body) (body ++ rest)
            ≡ (decode loads as_dict has_string_keys dumps body, rest) =
          rw (read_sized, some_bytes, fits, read_exactly-append body rest, read_body) refl in
        let read : read_frame loads as_dict has_string_keys dumps
              ((pack (length body) ++ body) ++ rest)
            ≡ (decode loads as_dict has_string_keys dumps body, rest) =
          ap (read_header loads as_dict has_string_keys dumps) whole
          ∙ ap (λ n. read_sized loads as_dict has_string_keys dumps n (body ++ rest)) size
          ∙ sized in
        (
          body,
          e,
          ap (λ f. read_frame loads as_dict has_string_keys dumps (f ++ rest)) (sym same) ∙ read,
        )
  ]

  read_body-bounded :
      (n : ℕ) (stream : Bytes)
      → length stream
        ≤ n + length (read_body loads as_dict has_string_keys dumps (read_exactly n stream)).1
  unfolding read_body
  read_body-bounded n stream = elim (Bool-cases (ltb (length stream) n)) [
    | inl e ↦ rw (e, read_body) (ground arith)
    | inr e ↦ rw (e, read_body) (length-drop n stream)
  ]

  read_sized-bounded :
      (n : ℕ) (stream : Bytes)
      → length stream
        ≤ max_frame_bytes + length (read_sized loads as_dict has_string_keys dumps n stream).1
  unfolding read_sized
  read_sized-bounded n stream = elim (Bool-cases (n == 0)) [
    | inl e ↦ rw (e, read_sized) (omega arith)
    | inr e ↦ elim (Bool-cases (ltb max_frame_bytes n)) [
      | inl d ↦ rw (e, d, read_sized) (omega arith)
      | inr d ↦ rw (e, d, read_sized) (let b = read_body-bounded n stream in ground arith)
    ]
  ]

  -- Whatever a peer sends, one read takes at most the header and 16 MiB off the stream.
  pub read_frame-bounded :
      (stream : Bytes)
      → length stream
        ≤ frame_header_bytes
          + max_frame_bytes
          + length (read_frame loads as_dict has_string_keys dumps stream).1
  unfolding read_frame read_header
  read_frame-bounded stream = elim (Bool-cases (ltb (length stream) 4)) [
    | inl e ↦ rw (e, read_frame, read_header) (ground arith)
    | inr e ↦
        rw (e, read_frame, read_header)
          (omega (
            arith,
            read_sized-bounded (from_bytes 0 (take 4 stream)) (drop 4 stream),
            length-drop 4 stream,
          ))
  ]

  -- A header that announces an empty body or one above 16 MiB is refused with FrameError before any
  -- of the body is read.
  pub read_frame-refused :
      (a b c d : ℕ) (rest : Bytes)
      → (from_bytes 0 (a ∷ b ∷ c ∷ d ∷ []) ≡ 0)
        ⊎ (max_frame_bytes < from_bytes 0 (a ∷ b ∷ c ∷ d ∷ []))
      → read_frame loads as_dict has_string_keys dumps (a ∷ b ∷ c ∷ d ∷ rest)
        ≡ (err frame_error, rest)
  unfolding read_frame read_header read_sized
  read_frame-refused a b c d rest h =
      let whole = read_exactly-append (a ∷ b ∷ c ∷ d ∷ []) rest in
      rw (read_frame, whole, read_header) (ground arith)
