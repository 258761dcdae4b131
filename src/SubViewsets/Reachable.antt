-- ===== src/SubViewsets/Reachable.antt =====
-- `mounted_under` of fastapi_viewsets/decorators/sub_viewsets.py ends, and yields the classes that are
-- reached by mounts.
use fastapi_viewsets.Prelude.{
  ℕ, zero, suc, ◌+◌, ◌<◌, ◌≤◌, nat_eq, nat_beq, beq-eq, beq_refl, contains, length,
  length-filter-le, List, [], ◌∷◌, Option, some, true, false, not, ◌≡◌, ◌↔◌, ◌⊎◌, inl, inr, refl,
  ap, sym, subst, ◌∙◌, arith, Bool-cases,
}
use fastapi_viewsets.SubViewsets.Visits.{
  contains-visit, left, left-visit, count, IsCounted, visit-IsCounted,
}
use fastapi_viewsets.SubViewsets.{Search, visit, search_on, search_all, mounted_under}

module _ (mounts : ℕ → List ℕ) (cls : ℕ) where
  -- A class that is mounted under `cls`, at some depth.
  pub data Under : ℕ → Type 0 where
    direct : {m : ℕ} → contains m (mounts cls) ≡ true → Under m
    deeper : {c m : ℕ} → Under c → contains m (mounts c) ≡ true → Under m

  -- What holds between two rounds.
  record IsSearch (s : Search) : Type 0 where
    same : (x : ℕ) → contains x s.yielded ≡ contains x s.seen
    counted : IsCounted s
    sound : (x : ℕ) → contains x s.seen ≡ true → Under x
    reached : (x : ℕ) → contains x s.pending ≡ true → (x ≡ cls) ⊎ Under x
    closed :
        (x m : ℕ)
        → (x ≡ cls) ⊎ (contains x s.seen ≡ true)
        → contains m (mounts x) ≡ true
        → (contains x s.pending ≡ true) ⊎ (contains m s.seen ≡ true)

  mounted_of : (x m : ℕ) → (x ≡ cls) ⊎ Under x → contains m (mounts x) ≡ true → Under m
  mounted_of x m (inl same) h = direct (subst (λ c. contains m (mounts c) ≡ true) same h)
  mounted_of x m (inr under) h = deeper under h

  module _ (s : Search) (c : ℕ) (pending : List ℕ) (e : s.pending ≡ c ∷ pending)
      (h : IsSearch s) where
    abbrev popped : Search
    popped = record s { pending = pending }

    pending-cons : (x : ℕ) → contains x s.pending ≡ contains x (c ∷ pending)
    pending-cons x = ap (contains x) e

    head_reached : (c ≡ cls) ⊎ Under c
    head_reached = h.reached c (pending-cons c ∙ ground (arith, beq_refl c))

    visited_sound : (x : ℕ) → contains x (visit (mounts c) popped).seen ≡ true → Under x
    visited_sound x k =
        let (seen, _, _) = contains-visit x (mounts c) popped in
        elim (Bool-cases (contains x s.seen)) [
          | inl old ↦ h.sound x old
          | inr new ↦ mounted_of c x head_reached (ground arith)
        ]

    visited_reached :
        (x : ℕ) → contains x (visit (mounts c) popped).pending ≡ true → (x ≡ cls) ⊎ Under x
    visited_reached x k =
        let (_, waiting, _) = contains-visit x (mounts c) popped in
        elim (Bool-cases (contains x pending)) [
          | inl old ↦ h.reached x (pending-cons x ∙ ground arith)
          | inr new ↦ inr (mounted_of c x head_reached (ground arith))
        ]

    old_closed :
        (x m : ℕ)
        → nat_beq c x ≡ false
        → (x ≡ cls) ⊎ (contains x s.seen ≡ true)
        → contains m (mounts x) ≡ true
        → (contains x (visit (mounts c) popped).pending ≡ true)
          ⊎ (contains m (visit (mounts c) popped).seen ≡ true)
    old_closed x m differ k mount = elim (h.closed x m k mount) [
      | inl waits ↦
          let (_, waiting, _) = contains-visit x (mounts c) popped in
          let still = sym (pending-cons x) ∙ waits in inl (ground arith)
      | inr seen ↦ let (now, _, _) = contains-visit m (mounts c) popped in inr (ground arith)
    ]

    new_closed :
        (x m : ℕ)
        → nat_beq c x ≡ false
        → contains x (visit (mounts c) popped).seen ≡ true
        → contains m (mounts x) ≡ true
        → (contains x (visit (mounts c) popped).pending ≡ true)
          ⊎ (contains m (visit (mounts c) popped).seen ≡ true)
    new_closed x m differ k mount = elim (Bool-cases (contains x s.seen)) [
      | inl old ↦ old_closed x m differ (inr old) mount
      | inr new ↦ let (seen, waiting, _) = contains-visit x (mounts c) popped in inl (ground arith)
    ]

    visited_closed :
        (x m : ℕ)
        → (x ≡ cls) ⊎ (contains x (visit (mounts c) popped).seen ≡ true)
        → contains m (mounts x) ≡ true
        → (contains x (visit (mounts c) popped).pending ≡ true)
          ⊎ (contains m (visit (mounts c) popped).seen ≡ true)
    visited_closed x m k mount = elim (Bool-cases (nat_beq c x)) [
      | inl same ↦
          let (seen, _, _) = contains-visit m (mounts c) popped in
          let here : contains m (mounts c) ≡ true =
            subst (λ y. contains m (mounts y) ≡ true) (sym (beq-eq c x same)) mount in
          inr (ground arith)
      | inr differ ↦ elim k [
        | inl root ↦ old_closed x m differ (inl root) mount
        | inr seen ↦ new_closed x m differ seen mount
      ]
    ]

    round-IsSearch : IsSearch (visit (mounts c) popped)
    round-IsSearch = record {
      counted = visit-IsCounted (mounts c) popped h.counted;
      same = λ x.
          let (seen, _, yielded) = contains-visit x (mounts c) popped in ground (arith, h.same x);
      sound = visited_sound;
      reached = visited_reached;
      closed = visited_closed;
    }

  -- A search with nothing pending has seen what is mounted under `cls`.
  none_pending :
      (s : Search) (x m : ℕ)
      → s.pending ≡ []
      → IsSearch s
      → (x ≡ cls) ⊎ (contains x s.seen ≡ true)
      → contains m (mounts x) ≡ true
      → contains m s.yielded ≡ true
  none_pending s x m e h k mount = elim (h.closed x m k mount) [
    | inl waits ↦ let none_waits = sym (ap (contains x) e) ∙ waits in absurd (ground arith)
    | inr seen ↦ h.same m ∙ seen
  ]

  done_complete :
      (s : Search) → s.pending ≡ [] → IsSearch s → (x : ℕ) → Under x → contains x s.yielded ≡ true
  done_complete s e h x (direct k) = none_pending s cls x e h (inl refl) k
  done_complete s e h x (deeper {c} under k) =
      none_pending s c x e h (inr (sym (h.same c) ∙ done_complete s e h c under)) k

  -- What a search answers.
  abbrev pub Answers : Option (List ℕ) → Type 0
  Answers answer =
      (found : List ℕ) × (answer ≡ some found)
      × ((x : ℕ) → (contains x found ≡ true) ↔ Under x)
      × ((x : ℕ) → count x found ≤ 1)

  search_on-Answers :
      (classes : List ℕ) (fuel : ℕ) (s : Search) (pending : List ℕ)
      → s.pending ≡ pending
      → ((c v : ℕ) → contains v (mounts c) ≡ true → contains v classes ≡ true)
      → left classes s < suc fuel
      → IsSearch s
      → ((s' : Search) → left classes s' < fuel → IsSearch s' → Answers (search_all mounts fuel s'))
      → Answers (search_on mounts pending (search_all mounts fuel) s)
  search_on-Answers classes fuel s [] e known enough h later = (
    s.yielded,
    refl,
    λ x. (λ k. h.sound x (sym (h.same x) ∙ k), done_complete s e h x),
    λ x. ground (arith, h.counted x),
  )
  search_on-Answers classes fuel s (c ∷ pending) e known enough h later =
      let fewer = left-visit classes (mounts c) (record s { pending = pending }) (known c) in
      later (visit (mounts c) (record s { pending = pending })) (omega (arith, fewer, ap length e))
        (round-IsSearch s c pending e h)

  search_all-Answers :
      (classes : List ℕ) (fuel : ℕ) (s : Search)
      → ((c v : ℕ) → contains v (mounts c) ≡ true → contains v classes ≡ true)
      → left classes s < fuel
      → IsSearch s
      → Answers (search_all mounts fuel s)
  unfolding search_all
  search_all-Answers classes zero s known enough h = ground arith
  search_all-Answers classes (suc fuel) s known enough h =
      search_on-Answers classes fuel s s.pending refl known enough h
        (λ s'. search_all-Answers classes fuel s' known)

  start-IsSearch : IsSearch (record { seen = []; pending = cls ∷ []; yielded = [] })
  start-IsSearch = record {
    counted = λ x. refl;
    same = λ x. refl;
    sound = λ x k. ground arith;
    reached = λ x k. inl (ground (arith, beq-eq cls x));
    closed = λ x m k mount. elim k [
      | inl same ↦ inl (ground (arith, beq_refl cls))
      | inr seen ↦ absurd (ground arith)
    ];
  }

-- Where finitely many classes are mounted anywhere, more rounds than there are of them and one more end the
-- search for what is mounted under a class, and it yields exactly the classes that a chain of mounts
-- reaches, each of them once.
pub mounted_under-Answers :
    (mounts : ℕ → List ℕ) (cls : ℕ) (classes : List ℕ) (fuel : ℕ)
    → ((c v : ℕ) → contains v (mounts c) ≡ true → contains v classes ≡ true)
    → length classes + 1 < fuel
    → Answers mounts cls (mounted_under mounts fuel cls)
unfolding mounted_under
mounted_under-Answers mounts cls classes fuel known enough =
    search_all-Answers mounts cls classes fuel
      (record { seen = []; pending = cls ∷ []; yielded = [] }) known
      (omega (arith, length-filter-le (λ c. not (contains c [])) classes))
      (start-IsSearch mounts cls)

module _ (mounts : ℕ → List ℕ) (cls : ℕ) where
  search_on-sound :
      (pending : List ℕ) (go_on : Search → Option (List ℕ)) (s : Search) (found : List ℕ) (x : ℕ)
      → s.pending ≡ pending
      → IsSearch mounts cls s
      → ((s' : Search)
          → IsSearch mounts cls s'
          → go_on s' ≡ some found
          → contains x found ≡ true
          → Under mounts cls x)
      → search_on mounts pending go_on s ≡ some found
      → contains x found ≡ true
      → Under mounts cls x
  search_on-sound [] go_on s found x e h later answered k =
      h.sound x (sym (h.same x) ∙ ground arith)
  search_on-sound (c ∷ pending) go_on s found x e h later answered k =
      later _ (round-IsSearch mounts cls s c pending e h) answered k

  search_all-sound :
      (fuel : ℕ) (s : Search) (found : List ℕ) (x : ℕ)
      → IsSearch mounts cls s
      → search_all mounts fuel s ≡ some found
      → contains x found ≡ true
      → Under mounts cls x
  unfolding search_all
  search_all-sound zero s found x h answered k = absurd (ground arith)
  search_all-sound (suc fuel) s found x h answered k =
      search_on-sound s.pending (search_all mounts fuel) s found x refl h
        (λ s'. search_all-sound fuel s' found x) answered k

  -- Whatever the fuel, a class that the walk yields is mounted under `cls`.
  pub mounted_under-Under :
      (fuel : ℕ) (found : List ℕ) (x : ℕ)
      → mounted_under mounts fuel cls ≡ some found
      → contains x found ≡ true
      → Under mounts cls x
  unfolding mounted_under
  mounted_under-Under fuel found x answered k =
      search_all-sound fuel _ found x (start-IsSearch mounts cls) answered k
