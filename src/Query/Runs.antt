-- ===== src/Query/Runs.antt =====
-- What every part of a playbook keeps: it makes few calls, each a permitted one, and what the trace
-- says against a query is reported.
use scs.Base.{
  ℕ, ◌+◌, ◌≤◌, ◌≡◌, refl, sym, ap, ◌∙◌, Bool, false, Option, none, some, List, [], ◌∷◌, ◌++◌, Text,
  length, All, All-append, arith, Bool-cases, inl, inr,
}
use mathlib.Core.List.{append_assoc, append-nil}
use scs.Value.{Fields}
use scs.Query.Evidence.{Evidence}
use scs.Query.Stages.{
  ok_status, TraceEntry, Call, Called, responded, failed, expired, Routes, Progress, Run,
  ◌and_then◌, continue_with, done, collect, mark_truncated, note_call, note_response, note_failure,
  stage, is_degraded,
}

abbrev pub IsClean : TraceEntry → Type 0
IsClean t = t.truncated ≡ false

abbrev pub IsOk : TraceEntry → Type 0
IsOk t = t.status ≡ ok_status

-- A truncated entry makes the query truncated, and one that is not ok has a degraded stage.
abbrev pub Reports : Progress → Type 0
Reports p =
    (p.truncated ≡ false → All IsClean p.trace) × (p.degraded_stages ≡ [] → All IsOk p.trace)

-- From `p` to `r`: at most `most` new calls, all permitted.
pub record Extends (permits : Call → Type 0) (most : ℕ) (p r : Progress) : Type 0 where
  pub made : List Call
  pub appended : r.called ≡ p.called ++ made
  pub few : length made ≤ most
  pub permitted : All permits made
  pub reports : Reports p → Reports r

pub not_empty {ℓ} : {A : Type ℓ} (xs : List A) (x : A) → xs ++ x ∷ [] ≡ [] → ⊥
not_empty [] x h = cc
not_empty (y ∷ ys) x h = cc

length-append {ℓ} : {A : Type ℓ} (xs ys : List A) → length (xs ++ ys) ≡ length xs + length ys
length-append [] ys = omega arith
length-append (x ∷ xs) ys = omega (arith, length-append xs ys)

-- A part of a playbook that makes at most `most` permitted calls from anywhere.
pub record IsRun (permits : Call → Type 0) {A : Type 0} (most : ℕ) (run : Run A) : Type 0 where
  pub extends : (p : Progress) → Extends permits most p (run p).0

module _ (permits : Call → Type 0) where
  idle : (p r : Progress) → r.called ≡ p.called → (Reports p → Reports r) → Extends permits 0 p r
  idle p r same reports = record {
    made = [];
    appended = same ∙ sym (append-nil p.called);
    few = omega arith;
    permitted = tt;
    reports = reports;
  }

  pub done-IsRun : {A : Type 0} (a : A) → IsRun permits 0 (done a)
  done-IsRun a = record { extends = λ p. idle p p refl (λ r. r) }

  pub collect-IsRun : (change : Evidence → Evidence) → IsRun permits 0 (collect change)
  collect-IsRun change = record { extends = λ p. idle p _ refl (λ r. r) }

  pub mark_truncated-IsRun : (b : Bool) → IsRun permits 0 (mark_truncated b)
  mark_truncated-IsRun b = record {
    extends = λ p. idle p _ refl (λ r. (λ e. r.0 (ground arith), r.1));
  }

  pub Extends-le :
      (j k : ℕ) (p r : Progress) → j ≤ k → Extends permits j p r → Extends permits k p r
  Extends-le j k p r h e = record {
    made = e.made;
    appended = e.appended;
    few = omega (arith, e.few, h);
    permitted = e.permitted;
    reports = e.reports;
  }

  Extends-trans :
      (j k : ℕ) (p q r : Progress)
      → Extends permits j p q
      → Extends permits k q r
      → Extends permits (j + k) p r
  Extends-trans j k p q r e f = record {
    made = e.made ++ f.made;
    appended =
        f.appended ∙ ap (λ cs. cs ++ f.made) e.appended ∙ append_assoc p.called e.made f.made;
    few = omega (arith, e.few, f.few, length-append e.made f.made);
    permitted = All-append permits e.made f.made e.permitted f.permitted;
    reports = λ h. f.reports (e.reports h);
  }

  continue_with-Extends :
      {A B : Type 0} (j k : ℕ) (p : Progress) (result : Progress × Option A) (rest : A → Run B)
      → Extends permits j p result.0
      → ((a : A) → IsRun permits k (rest a))
      → Extends permits (j + k) p (continue_with result rest).0
  continue_with-Extends j k p (q, none) rest e f = Extends-le j (j + k) p q (omega arith) e
  continue_with-Extends j k p (q, some a) rest e f = Extends-trans j k p q _ e ((f a).extends q)

  pub and_then-IsRun :
      {A B : Type 0} (j k n : ℕ) (first : Run A) (rest : A → Run B)
      → j + k ≤ n
      → IsRun permits j first
      → ((a : A) → IsRun permits k (rest a))
      → IsRun permits n (first and_then rest)
  and_then-IsRun j k n first rest h e f = record {
    extends = λ p.
        Extends-le (j + k) n p _ h (continue_with-Extends j k p (first p) rest (e.extends p) f);
  }

  note_response-Reports :
      (name : Text) (response : Fields) (p : Progress)
      → Reports p
      → Reports (note_response name response p)
  note_response-Reports name response p r = (
    λ e. All-append IsClean p.trace (_ ∷ []) (r.0 (ground arith)) (ground arith, tt),
    λ e. elim (Bool-cases (is_degraded response)) [
      | inl bad ↦ absurd (not_empty p.degraded_stages name (rw bad at e))
      | inr good ↦ All-append IsOk p.trace (_ ∷ []) (r.1 (rw good at e)) (rw good refl, tt)
    ],
  )

  note_failure-Reports :
      (name : Text) (b : Bool) (p : Progress) → Reports p → Reports (note_failure name b p)
  note_failure-Reports name b p r = (λ e. cc, λ e. absurd (not_empty p.degraded_stages name e))

  note_call-Reports :
      (name : Text) (c : Called) (p : Progress) → Reports p → Reports (note_call name c p).0
  note_call-Reports name (responded response) p r = note_response-Reports name response p r
  note_call-Reports name (failed b) p r = note_failure-Reports name b p r
  note_call-Reports name expired p r = r

  note_call-called :
      (name : Text) (c : Called) (p : Progress) → (note_call name c p).0.called ≡ p.called
  note_call-called name (responded response) p = refl
  note_call-called name (failed b) p = refl
  note_call-called name expired p = refl

  pub stage-IsRun :
      (routes : Routes) (name method : Text) (arguments : Fields)
      → permits (method, arguments)
      → IsRun permits 1 (stage routes name method arguments)
  unfolding stage
  stage-IsRun routes name method arguments ok_call = record {
    extends = λ p.
        let begun : Progress = record p { called = p.called ++ (method, arguments) ∷ [] } in
        let answer = routes p.called method arguments in
        record {
          made = (method, arguments) ∷ [];
          appended = note_call-called name answer begun;
          few = omega arith;
          permitted = (ok_call, tt);
          reports = λ r. note_call-Reports name answer begun r;
        };
  }

  pub IsRun-le :
      {A : Type 0} (j k : ℕ) (run : Run A) → j ≤ k → IsRun permits j run → IsRun permits k run
  IsRun-le j k run h e = record { extends = λ p. Extends-le j k p _ h (e.extends p) }
