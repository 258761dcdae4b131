-- ===== src/Events/Store/Kept.antt =====
-- What a topic's log keeps in `append` of fastapi_viewsets/events/store.py: the last events that have not expired.
use fastapi_viewsets.Prelude.{
  ℕ, zero, suc, ◌-◌, ◌<◌, ◌≡◌, refl, length, drop, ltb, leb, if◌then◌else◌, List, [], ◌∷◌, Option,
  none, some, not, ◌&&◌, Bool-cases, inl, inr, arith, ◌∙◌, ap, sym,
}
use fastapi_viewsets.Events.Store.{LoggedEvent, Topic, topic_or_new, is_empty, live_log, trim}

-- The last `n` of a list.
abbrev pub last_of {ℓ} : {A : Type ℓ} → ℕ → List A → List A
last_of n xs = drop (length xs - n) xs

drop-nil {ℓ} : {A : Type ℓ} (n : ℕ) → drop {A = A} n [] ≡ []
drop-nil zero = refl
drop-nil (suc n) = refl

drop-cons {ℓ} :
    {A : Type ℓ} (n : ℕ) (x : A) (xs : List A) → 0 < n → drop n (x ∷ xs) ≡ drop (n - 1) xs
drop-cons zero x xs h = absurd (omega arith)
drop-cons (suc n) x xs h = ap (λ m. drop m xs) (omega arith)

-- The topic's log as it is kept: emptied where its time is up.
abbrev pub unexpired : {P : Type 0} → Option (Topic P) → ℕ → List (LoggedEvent P)
unexpired none now_ms = []
unexpired (some state) now_ms = if leb state.log_expires_ms now_ms then [] else state.log

module _ {P : Type 0} where
  pub trim-last_of : (size : ℕ) (log : List (LoggedEvent P)) → trim size log ≡ last_of size log
  unfolding trim
  trim-last_of size [] = sym (drop-nil (0 - size))
  trim-last_of size (e ∷ log) = elim (Bool-cases (ltb size (length (e ∷ log)))) [
    | inl over ↦
        let less : length log - size ≡ length (e ∷ log) - size - 1 = ground arith in
        rw over (
          trim-last_of size log
          ∙ ap (λ n. drop n log) less
          ∙ sym (drop-cons (length (e ∷ log) - size) e log (ground arith)))
    | inr fits ↦
        let whole : length (e ∷ log) - size ≡ 0 = ground arith in
        rw fits (sym (ap (λ n. drop n (e ∷ log)) whole))
  ]

  pub live_log-unexpired :
      (found : Option (Topic P)) (now_ms : ℕ)
      → live_log (topic_or_new found) now_ms ≡ unexpired found now_ms
  unfolding live_log
  live_log-unexpired none now_ms = refl
  live_log-unexpired (some state) now_ms = at state.log
    where
      at :
          (log : List (LoggedEvent P))
          → (if not (is_empty log) && leb state.log_expires_ms now_ms then [] else log)
            ≡ (if leb state.log_expires_ms now_ms then [] else log)
      at [] = ground arith
      at (e ∷ log) = refl
