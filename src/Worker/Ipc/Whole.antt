-- ===== src/Worker/Ipc/Whole.antt =====
-- What `_write_message` of tunstrap/_worker.py puts into the pipe.
use garuda_tunnel.Base.{
  ℕ, zero, suc, ◌≤◌, ◌≡◌, ◌≢◌, refl, sym, ap, subst, ◌∙◌, inl, inr, [], ◌∷◌, ◌++◌, ◌⊎◌,
  append_assoc, Text, nat_eq, ◌==◌, length, arith, Bool-cases, Result-cases, ok, err,
}
use garuda_tunnel.Value.{Value}
use garuda_tunnel.Worker.Ipc.{
  take, drop, WriteError, os_failed, stuck, short_write, Written, OsWrite, write_all, line,
  write_message,
}

take-drop : (n : ℕ) (s : Text) → take n s ++ drop n s ≡ s
unfolding take drop
take-drop zero s = refl
take-drop (suc n) [] = refl
take-drop (suc n) (c ∷ s) = ap (λ t. c ∷ t) (take-drop n s)

drop-short : (n : ℕ) (c : ℕ) (s : Text) → n ≢ 0 → length (drop n (c ∷ s)) ≤ length s
unfolding drop
drop-short zero c s h = ground arith
drop-short (suc zero) c s h = omega arith
drop-short (suc (suc n)) c [] h = omega arith
drop-short (suc (suc n)) c (d ∷ s) h = omega (arith, drop-short (suc n) d s (λ e. ground arith))

-- A write that ends well took all; one that fails took a part, and is not for want of fuel.
data Outcome (payload : Text) (w : Written) : Type 0 where
  whole : w.taken ≡ payload → w.outcome ≡ ok tt → Outcome payload w
  cut :
      (rest : Text) (e : WriteError)
      → payload ≡ w.taken ++ rest
      → rest ≢ []
      → w.outcome ≡ err e
      → e ≢ stuck
      → Outcome payload w

-- What was taken first, and what became of the rest.
Outcome-take :
    (n : ℕ) (payload : Text) (w : Written)
    → Outcome (drop n payload) w
    → Outcome payload (record { taken = take n payload ++ w.taken; outcome = w.outcome })
Outcome-take n payload w (whole all good) =
    whole (ap (λ t. take n payload ++ t) all ∙ take-drop n payload) good
Outcome-take n payload w (cut rest e parts more bad fuelled) =
    cut rest e
      (sym (take-drop n payload)
        ∙ ap (λ t. take n payload ++ t) parts
        ∙ sym (append_assoc (take n payload) w.taken rest))
      more bad fuelled

write_all-Outcome :
    (os_write : OsWrite) (fuel : ℕ) (payload : Text)
    → length payload ≤ fuel
    → Outcome payload (write_all os_write fuel payload)
unfolding write_all
write_all-Outcome os_write fuel [] h = whole refl refl
write_all-Outcome os_write zero (c ∷ payload) h = absurd (omega (arith, h))
write_all-Outcome os_write (suc fuel) (c ∷ payload) h =
    elim (Result-cases (os_write (c ∷ payload))) [
      | inr (_, fails) ↦
          let failed : Outcome (c ∷ payload) (record { taken = []; outcome = err os_failed }) =
            cut (c ∷ payload) os_failed refl (λ e. cc) refl (λ e. cc) in
          subst (Outcome (c ∷ payload)) (ground (arith, fails)) failed
      | inl (n, takes) ↦ elim (Bool-cases (n == 0)) [
        | inl nothing ↦
            let short : Outcome (c ∷ payload)
                (record { taken = []; outcome = err (short_write (length (c ∷ payload))) }) =
              cut (c ∷ payload) (short_write (length (c ∷ payload))) refl (λ e. cc) refl
                (λ e. cc) in
            subst (Outcome (c ∷ payload)) (ground (arith, takes, nothing)) short
        | inr some_taken ↦
            let fewer = drop-short n c payload (ground arith) in
            let rest = write_all os_write fuel (drop n (c ∷ payload)) in
            subst (Outcome (c ∷ payload)) (ground (arith, takes, some_taken)) (
              Outcome-take n (c ∷ payload) rest
                (write_all-Outcome os_write fuel (drop n (c ∷ payload)) (omega (arith, fewer, h))))
      ]
    ]

-- However many bytes each write of the system takes, a message that is written without an error is
-- in the pipe whole; one that fails is cut short by a failed or an empty write of the system.
pub write_message-taken :
    (dumps : Value → Text) (os_write : OsWrite) (message : Value)
    → let w = write_message dumps os_write message in
      ((w.outcome ≡ ok tt) × (w.taken ≡ line dumps message))
      ⊎ ((rest : Text) × (e : WriteError) × (rest ≢ [])
          × (line dumps message ≡ w.taken ++ rest)
          × (w.outcome ≡ err e)
          × (e ≢ stuck))
unfolding write_message
write_message-taken dumps os_write message =
    elim (write_all-Outcome os_write (length (line dumps message)) (line dumps message)
      (omega arith)) [
        | whole all good ↦ inl (good, all)
        | cut rest e parts more bad fuelled ↦ inr (rest, e, more, parts, bad, fuelled)
      ]

-- A pipe whose reader stays takes at least a byte of what there is.
abbrev pub IsOpen : OsWrite → Type 0
IsOpen os_write = (payload : Text) → payload ≢ [] → (n : ℕ) × (n ≢ 0) × (os_write payload ≡ ok n)

write_all-open :
    (os_write : OsWrite) (fuel : ℕ) (payload : Text)
    → IsOpen os_write
    → length payload ≤ fuel
    → (write_all os_write fuel payload).outcome ≡ ok tt
unfolding write_all
write_all-open os_write fuel [] pipe h = refl
write_all-open os_write zero (c ∷ payload) pipe h = absurd (omega (arith, h))
write_all-open os_write (suc fuel) (c ∷ payload) pipe h =
    let (n, more, takes) = pipe (c ∷ payload) (λ e. cc) in
    let fewer = drop-short n c payload more in
    ground (
      arith,
      takes,
      more,
      write_all-open os_write fuel (drop n (c ∷ payload)) pipe (omega (arith, fewer, h)),
    )

-- Into such a pipe every message is written whole.
pub write_message-open :
    (dumps : Value → Text) (os_write : OsWrite) (message : Value)
    → IsOpen os_write
    → ((write_message dumps os_write message).outcome ≡ ok tt)
      × ((write_message dumps os_write message).taken ≡ line dumps message)
write_message-open dumps os_write message pipe =
    let good : (write_message dumps os_write message).outcome ≡ ok tt =
      unfold write_message in
      write_all-open os_write (length (line dumps message)) (line dumps message) pipe
        (omega arith) in
    elim (write_message-taken dumps os_write message) [
      | inl (done, all) ↦ (done, all)
      | inr (rest, e, more, parts, bad, fuelled) ↦ cc
    ]
