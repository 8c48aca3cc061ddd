-- ===== src/Wire/Tests.antt =====
-- Frames with bodies taken as they are, and a router with one method (src/scs/wire).
use scs.Base.{
  ◌+◌, ◌≤◌, ◌≡◌, refl, Bool, true, false, Option, none, some, [], ◌∷◌, ◌++◌, Text, codes, ok, err,
  frame_error, busy_error, value_error, length, inl, text_eq, not, is_some, ◌↔◌,
}
use scs.Wire.Framing.{
  Bytes, max_frame_bytes, frame_header_bytes, decode, read_frame, write_frame, frame_body,
}
use scs.Wire.Frames.{read_frame-write_frame, read_frame-bounded, read_frame-refused}
use scs.Wire.Router.{
  unknown_method, unavailable, WireError, Handler, Handlers, find_handler, register_method,
  is_irregular, contained, dispatch,
}
use scs.Wire.Routing.{register_method-dispatch, dispatch-total}

abbrev as_it_is : Bytes → Option Bytes
as_it_is bytes = some bytes

abbrev any_keys : Bytes → Bool
any_keys bytes = true

abbrev braces : Bytes
braces = 123 ∷ 125 ∷ []

abbrev braces_frame : Bytes
braces_frame = 0 ∷ 0 ∷ 0 ∷ 2 ∷ 123 ∷ 125 ∷ []

braces_written : write_frame as_it_is as_it_is any_keys as_it_is braces ≡ ok braces_frame
unfolding write_frame frame_body
braces_written = refl

read_frame-write_frame_example :
    (body : Bytes) × (as_it_is braces ≡ some body)
    × (read_frame as_it_is as_it_is any_keys as_it_is (braces_frame ++ 7 ∷ [])
        ≡ (decode as_it_is as_it_is any_keys as_it_is body, 7 ∷ []))
read_frame-write_frame_example =
    read_frame-write_frame as_it_is as_it_is any_keys as_it_is braces braces_frame (7 ∷ [])
      braces_written

read_frame-bounded_example :
    length braces_frame
    ≤ frame_header_bytes
      + max_frame_bytes
      + length (read_frame as_it_is as_it_is any_keys as_it_is braces_frame).1
read_frame-bounded_example = read_frame-bounded as_it_is as_it_is any_keys as_it_is braces_frame

read_frame-refused_example :
    read_frame as_it_is as_it_is any_keys as_it_is (0 ∷ 0 ∷ 0 ∷ 0 ∷ braces)
    ≡ (err frame_error, braces)
read_frame-refused_example =
    read_frame-refused as_it_is as_it_is any_keys as_it_is 0 0 0 0 braces (inl refl)

abbrev echo : Handler Text Text
echo = record { run = λ params. ok params; is_async = true }

abbrev busy : Handler Text Text
busy = record { run = λ params. err busy_error; is_async = true }

abbrev with_echo : Handlers Text Text
with_echo = (codes "echo", echo) ∷ []

echo_registered : register_method (codes "echo") echo [] ≡ ok with_echo
unfolding register_method is_irregular find_handler
echo_registered = refl

register_method-dispatch_example :
    ((params : Text) → (dispatch (codes "echo") params with_echo).0 ≡ contained (echo.run params))
    × ((method : Text) (params : Text)
        → text_eq (codes "echo") method ≡ false
        → dispatch method params with_echo ≡ dispatch method params [])
    × (register_method (codes "echo") busy with_echo ≡ err value_error)
register_method-dispatch_example =
    register_method-dispatch (codes "echo") echo busy [] with_echo echo_registered

dispatch-total_example :
    (is_some (dispatch (codes "echo") (codes "x") with_echo).0.value
      ≡ not (is_some (dispatch (codes "echo") (codes "x") with_echo).0.error))
    × ((error : WireError)
        → (dispatch (codes "echo") (codes "x") with_echo).0.error ≡ some error
        → ((error.retryable ≡ true) ↔ (error.code ≡ unavailable))
          × ((error.code ≡ unknown_method) ↔ (find_handler (codes "echo") with_echo ≡ none)))
dispatch-total_example = dispatch-total (codes "echo") (codes "x") with_echo
