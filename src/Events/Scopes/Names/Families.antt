-- ===== src/Events/Scopes/Names/Families.antt =====
-- Which classes can share the name of a scope by `event_scope` of fastapi_viewsets/events/scopes.py.
use fastapi_viewsets.Prelude.{
  ℕ, Text, lookup, insert, lookup-insert, list_eq, nat_eq, ◌==◌, beq-eq, beq_refl, contains, List,
  [], ◌∷◌, ◌++◌, Option, none, some, true, ◌||◌, ◌≡◌, refl, Bool-cases, inl, inr, arith, sym, subst,
  ◌∙◌, All,
}
use fastapi_viewsets.Events.Topics.{Checked, ok, value_error, type_error}
use fastapi_viewsets.Events.Scopes.Names.{
  EventScope, Classes, EventScopes, is_subclass, is_reloaded, extends_any, related_to_any,
  or_nobody, scoped, shared_by, declared_at, declared, event_scope,
}
use fastapi_viewsets.Events.Scopes.Names.Links.{
  Family, same, reloaded, back, through, Stays, extends_holder, related_to_any-Family,
  extends_any-Family, contains-append,
}

module _ (classes : Classes) where
  -- A class under a name is connected to the class that holds the name.
  abbrev pub IsHeld : {R : Type 0} → EventScopes R → Text → ℕ → Type 0
  IsHeld s name cls = (holder : ℕ) × (lookup name s.names ≡ some holder) × Family classes holder cls

  pub record IsDeclared {R : Type 0} (s : EventScopes R) : Type 0 where
    pub carried :
        (cls : ℕ) (scope : EventScope R)
        → lookup cls s.scopes ≡ some scope
        → IsHeld s scope.name cls
    pub shared :
        (name : Text) (cls : ℕ)
        → contains cls (or_nobody (lookup name s.sharers)) ≡ true
        → IsHeld s name cls

  module _ {R : Type 0} where
    -- A class takes the scope of a name whose holder it is connected to.
    scoped-IsDeclared :
        (cls : ℕ) (name : Text) (resolver : R) (s : EventScopes R)
        → IsDeclared s
        → IsHeld s name cls
        → IsDeclared (scoped cls name resolver s).0
    scoped-IsDeclared cls name resolver s h held = record {
      carried = λ c scope e. elim (Bool-cases (cls == c)) [
        | inl it ↦
            let new : some (record { name = name; resolver = resolver }) ≡ some scope =
              sym (rw (lookup-insert, it) refl) ∙ e in
            let named : name ≡ scope.name = ground arith in
            subst (λ n. IsHeld s n c) named (subst (IsHeld s name) (beq-eq cls c it) held)
        | inr other ↦ h.carried c scope (sym (rw (lookup-insert, other) refl) ∙ e)
      ];
      shared = h.shared;
    }

    IsHeld-taken :
        (cls : ℕ) (name : Text) (s : EventScopes R) (n : Text) (c : ℕ)
        → ((holder : ℕ) → lookup name s.names ≡ some holder → Family classes cls holder)
        → IsHeld s n c
        → IsHeld (record s { names = insert name cls s.names }) n c
    IsHeld-taken cls name s n c takes (holder, found, family) = elim (Bool-cases (name == n)) [
      | inl it ↦
          let mine = subst (λ m. lookup m s.names ≡ some holder) (sym (beq-eq name n it)) found in
          (cls, rw (lookup-insert, it) refl, through (takes holder mine) family)
      | inr other ↦ (holder, rw (lookup-insert, other) found, family)
    ]

    -- A class takes a name from a class that it is connected to, or a free name.
    held-IsDeclared :
        (cls : ℕ) (name : Text) (s : EventScopes R)
        → IsDeclared s
        → ((holder : ℕ) → lookup name s.names ≡ some holder → Family classes cls holder)
        → IsDeclared (record s { names = insert name cls s.names })
    held-IsDeclared cls name s h takes = record {
      carried = λ c scope e. IsHeld-taken cls name s scope.name c takes (h.carried c scope e);
      shared = λ n c k. IsHeld-taken cls name s n c takes (h.shared n c k);
    }

    shared-IsDeclared :
        (name : Text) (sharers : List ℕ) (s : EventScopes R)
        → IsDeclared s
        → ((c : ℕ) → contains c sharers ≡ true → IsHeld s name c)
        → IsDeclared (record s { sharers = insert name sharers s.sharers })
    shared-IsDeclared name sharers s h held = record {
      carried = h.carried;
      shared = λ n c k. elim (Bool-cases (name == n)) [
        | inl it ↦
            let new : lookup n (insert name sharers s.sharers) ≡ some sharers =
              rw (lookup-insert, it) refl in
            subst (λ m. IsHeld s m c) (beq-eq name n it)
              (held c (subst (λ o. contains c (or_nobody o) ≡ true) new k))
        | inr other ↦
            let old : lookup n (insert name sharers s.sharers) ≡ lookup n s.sharers =
              rw (lookup-insert, other) refl in
            h.shared n c (subst (λ o. contains c (or_nobody o) ≡ true) old k)
      ];
    }

  member-IsHeld :
      {R : Type 0} (name : Text) (holder b : ℕ) (s : EventScopes R)
      → IsDeclared s
      → lookup name s.names ≡ some holder
      → contains b (holder ∷ or_nobody (lookup name s.sharers)) ≡ true
      → IsHeld s name b
  member-IsHeld name holder b s h found there = elim (Bool-cases (holder == b)) [
    | inl it ↦ (holder, found, subst (Family classes holder) (beq-eq holder b it) (same holder))
    | inr other ↦ h.shared name b (ground arith)
  ]

  sharers-IsHeld :
      {R : Type 0} (name : Text) (sharers : List ℕ) (cls : ℕ) (s : EventScopes R)
      → ((c : ℕ) → contains c sharers ≡ true → IsHeld s name c)
      → IsHeld s name cls
      → (c : ℕ) → contains c (sharers ++ cls ∷ []) ≡ true
      → IsHeld s name c
  sharers-IsHeld name sharers cls s held mine c k = elim (contains-append c cls sharers k) [
    | inl there ↦ held c there
    | inr last ↦ subst (IsHeld s name) (sym last) mine
  ]

  module _ {R : Type 0} (fuel : ℕ) (mounts : ℕ → List ℕ) (stays : Stays classes mounts) where
    shared_by-IsDeclared :
        (cls : ℕ) (name : Text) (resolver : R) (holder : ℕ) (s : EventScopes R)
        → IsDeclared s
        → lookup name s.names ≡ some holder
        → IsDeclared
            (shared_by fuel
              (record classes { mounts = mounts })
              cls
              name
              resolver
              holder
              (or_nobody (lookup name s.sharers))
              s).0
    shared_by-IsDeclared cls name resolver holder s h found =
        let now = record classes { mounts = mounts } in
        let sharers = or_nobody (lookup name s.sharers) in
        elim (Bool-cases (extends_any now cls sharers)) [
          | inl extends ↦
              let (b, there, family) =
                extends_any-Family classes fuel mounts stays cls sharers extends in
              let (at, by, held) = h.shared name b there in
              rw extends (
                scoped-IsDeclared cls name resolver _
                  (shared-IsDeclared name sharers s h (h.shared name))
                  (at, by, through held family))
          | inr apart ↦ elim (Bool-cases (related_to_any fuel now cls (holder ∷ sharers))) [
            | inl related ↦
                let (b, there, family) =
                  related_to_any-Family classes fuel mounts stays cls (holder ∷ sharers) related in
                let (at, by, held) = member-IsHeld name holder b s h found there in
                let mine : IsHeld s name cls = (at, by, through held family) in
                rw (apart, related)
                  (scoped-IsDeclared cls name resolver _
                    (shared-IsDeclared name (sharers ++ cls ∷ []) s h
                      (sharers-IsHeld name sharers cls s (h.shared name) mine))
                    mine)
            | inr strange ↦ rw (apart, strange) (shared-IsDeclared name sharers s h (h.shared name))
          ]
        ]

    declared_at-IsDeclared :
        (cls : ℕ) (name : Text) (resolver : R) (found : Option ℕ) (s : EventScopes R)
        → IsDeclared s
        → lookup name s.names ≡ found
        → IsDeclared
            (declared_at fuel (record classes { mounts = mounts }) found cls name resolver s).0
    unfolding is_reloaded
    declared_at-IsDeclared cls name resolver none s h e =
        scoped-IsDeclared cls name resolver _
          (held-IsDeclared cls name s h (λ holder k. absurd (ground arith)))
          (cls, rw (lookup-insert, beq_refl name) refl, same cls)
    declared_at-IsDeclared cls name resolver (some holder) s h e =
        let now = record classes { mounts = mounts } in
        elim (Bool-cases (is_reloaded now cls holder)) [
          | inl again ↦ rw again (
              scoped-IsDeclared cls name resolver _
                (held-IsDeclared cls name s h
                  (λ other k. subst (Family classes cls) (ground arith) (reloaded again)))
                (cls, rw (lookup-insert, beq_refl name) refl, same cls))
          | inr first ↦ elim (Bool-cases (cls == holder || is_subclass now cls holder)) [
            | inl own ↦
                rw (first, own)
                  (scoped-IsDeclared cls name resolver s h
                    (holder, e, extends_holder classes cls holder own))
            | inr other ↦ rw (first, other) (shared_by-IsDeclared cls name resolver holder s h e)
          ]
        ]

    declared-IsDeclared :
        (checked : Checked Text) (cls : ℕ) (resolver : R) (s : EventScopes R)
        → IsDeclared s
        → IsDeclared (declared fuel (record classes { mounts = mounts }) checked cls resolver s).0
    declared-IsDeclared value_error cls resolver s h = h
    declared-IsDeclared type_error cls resolver s h = h
    declared-IsDeclared (ok name) cls resolver s h =
        declared_at-IsDeclared cls name resolver (lookup name s.names) s h refl

    event_scope-IsDeclared :
        (resolver : R) (name : Option Text) (cls : ℕ) (s : EventScopes R)
        → IsDeclared s
        → IsDeclared (event_scope fuel (record classes { mounts = mounts }) resolver name cls s).0
    unfolding event_scope
    event_scope-IsDeclared resolver name cls s h = declared-IsDeclared _ cls resolver s h

abbrev pub nothing_declared : {R : Type 0} → EventScopes R
nothing_declared = record { names = []; sharers = []; scopes = [] }

-- A declaration by `event_scope`, with the mounts as they stand at it.
pub record Declaration (R : Type 0) : Type 0 where
  pub mounts : ℕ → List ℕ
  pub resolver : R
  pub name : Option Text
  pub cls : ℕ

module _ {R : Type 0} (fuel : ℕ) (classes : Classes) where
  -- Declarations one after another; a refused one leaves its class without the scope.
  unfoldable pub declare_all : List (Declaration R) → EventScopes R → EventScopes R
  unfolding event_scope
  declare_all [] s = s
  declare_all (d ∷ declarations) s =
      declare_all declarations
        (event_scope fuel (record classes { mounts = d.mounts }) d.resolver d.name d.cls s).0

  declare_all-IsDeclared :
      (declarations : List (Declaration R)) (s : EventScopes R)
      → All (λ d. Stays classes d.mounts) declarations
      → IsDeclared classes s
      → IsDeclared classes (declare_all declarations s)
  unfolding declare_all
  declare_all-IsDeclared [] s stay h = h
  declare_all-IsDeclared (d ∷ declarations) s stay h =
      declare_all-IsDeclared declarations _ stay.1
        (event_scope-IsDeclared classes fuel d.mounts stay.0 d.resolver d.name d.cls s h)

  nothing-IsDeclared : IsDeclared classes {R = R} nothing_declared
  unfolding lookup
  nothing-IsDeclared = record {
    carried = λ cls scope e. absurd (ground arith);
    shared = λ name cls k. absurd (ground arith);
  }

  -- After any declarations, accepted or refused, of classes whose mounts at each declaration are among
  -- those of `classes`: two classes that carry scopes of one name are connected by subclassing, by
  -- mounting at any depth, and by reloads of a module, so no class reads or writes under the name of an
  -- unrelated one.
  pub declare_all-Family :
      (declarations : List (Declaration R)) (a b : ℕ) (scope scope' : EventScope R)
      → All (λ d. Stays classes d.mounts) declarations
      → lookup a (declare_all declarations nothing_declared).scopes ≡ some scope
      → lookup b (declare_all declarations nothing_declared).scopes ≡ some scope'
      → scope.name ≡ scope'.name
      → Family classes a b
  declare_all-Family declarations a b scope scope' stay ea eb same_name =
      let h = declare_all-IsDeclared declarations nothing_declared stay nothing-IsDeclared in
      let (holder, found, family) = h.carried a scope ea in
      let (holder', found', family') = h.carried b scope' eb in
      let names = (declare_all declarations nothing_declared).names in
      let moved = subst (λ n. lookup n names ≡ some holder) same_name found in
      let one : holder ≡ holder' = ground arith in
      through (back family) (subst (λ x. Family classes x b) (sym one) family')
