-- ===== src/Wire/Routing.antt =====
-- What registration and dispatch guarantee (src/scs/wire/router.py).
use scs.Base.{
  ◌≡◌, ◌≢◌, refl, subst, true, false, Option, none, some, ◌∷◌, Text, Outcome, ok, err, raise_if,
  >>=-eq-ok, Error, value_error, text_eq, text_eq_refl, not, is_some, arith, inl, inr, ◌↔◌,
  Option-cases,
}
use scs.Wire.Router.{
  unknown_method, unavailable, WireError, Handler, Handlers, find_handler, register_method,
  is_irregular, category, contained, dispatch_to, dispatch,
}

-- The error of an exception is to be retried exactly if the service is unavailable, and is never that
-- of an unknown method.
category_lem :
    (e : Error)
    → (((category e).retryable ≡ true) ↔ ((category e).code ≡ unavailable))
      × ((category e).code ≢ unknown_method)
category_lem e = (ground arith, λ h. absurd (ground arith))

module _ {Params Value : Type 0} where
  contained_lem :
      (handler : Handler Params Value) (out : Outcome Value)
      → (is_some (contained out).value ≡ not (is_some (contained out).error))
        × ((error : WireError)
            → (contained out).error ≡ some error
            → ((error.retryable ≡ true) ↔ (error.code ≡ unavailable))
              × ((error.code ≡ unknown_method)
                  ↔ (◌≡◌ {A = Option (Handler Params Value)} (some handler) none)))
  unfolding contained
  contained_lem handler (ok value) = (refl, λ error e. absurd (ground arith))
  contained_lem handler (err e) = (
    refl,
    λ error h.
        let same : category e ≡ error = ground arith in
        let (retry, known) = category_lem e in
        (
          subst (λ w. (w.retryable ≡ true) ↔ (w.code ≡ unavailable)) same retry,
          ((λ u. absurd (known (rw same u))), (λ u. absurd (ground arith))),
        ),
  )

  -- A registered method reaches its handler, every other method is dispatched as before, and the name
  -- cannot be registered again.
  pub register_method-dispatch :
      (name : Text) (handler other : Handler Params Value) (handlers longer : Handlers Params Value)
      → register_method name handler handlers ≡ ok longer
      → ((params : Params) → (dispatch name params longer).0 ≡ contained (handler.run params))
        × ((method : Text) (params : Params)
            → text_eq name method ≡ false
            → dispatch method params longer ≡ dispatch method params handlers)
        × (register_method name other longer ≡ err value_error)
  unfolding register_method dispatch dispatch_to find_handler
  register_method-dispatch name handler other handlers longer h =
      let (_, regular, h₁) = >>=-eq-ok (raise_if (is_irregular name) value_error) _ h in
      let (_, new, h₂) =
        >>=-eq-ok (raise_if (is_some (find_handler name handlers)) value_error) _ h₁ in
      let (_, async, h₃) = >>=-eq-ok (raise_if (not handler.is_async) _) _ h₂ in
      let same : (name, handler) ∷ handlers ≡ longer = ground arith in
      let good : is_irregular name ≡ false = ground arith in
      subst
        (λ hs.
          ((params : Params) → (dispatch name params hs).0 ≡ contained (handler.run params))
          × ((method : Text) (params : Params)
              → text_eq name method ≡ false
              → dispatch method params hs ≡ dispatch method params handlers)
          × (register_method name other hs ≡ err value_error))
        same
        (
          (λ params. rw (dispatch, find_handler, text_eq_refl name) refl),
          (λ method params differ. rw (dispatch, find_handler, differ) refl),
          rw (good, register_method, find_handler, text_eq_refl name) refl,
        )

  -- A dispatch always answers with a value or with an error and never with both; the error is to be
  -- retried exactly if its code is that of an unavailable service, and its code is that of an unknown
  -- method exactly if the method is not registered.
  pub dispatch-total :
      (method : Text) (params : Params) (handlers : Handlers Params Value)
      → (is_some (dispatch method params handlers).0.value
          ≡ not (is_some (dispatch method params handlers).0.error))
        × ((error : WireError)
            → (dispatch method params handlers).0.error ≡ some error
            → ((error.retryable ≡ true) ↔ (error.code ≡ unavailable))
              × ((error.code ≡ unknown_method) ↔ (find_handler method handlers ≡ none)))
  unfolding dispatch dispatch_to contained
  dispatch-total method params handlers = elim (Option-cases (find_handler method handlers)) [
    | inl z ↦ rw (z, dispatch) (refl, λ error e. ground arith)
    | inr (handler, found) ↦ rw (found, dispatch) (contained_lem handler (handler.run params))
  ]
