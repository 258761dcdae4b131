-- ===== src/SubViewsets.antt =====
-- fastapi_viewsets/decorators/sub_viewsets.py: the viewsets that `ViewSetRouter.sub_viewset` mounts under
-- another. A class stands for itself by a number.
pub mod Mounting
pub mod Visits
pub mod Reachable
pub mod Examples
use fastapi_viewsets.Prelude.{
  ℕ, zero, suc, Text, text, Dict, lookup, insert, list_eq, nat_eq, ◌==◌, if◌then◌else◌, contains,
  update, List, [], ◌∷◌, ◌++◌, reverse, map, Option, none, some, Bool, true, false, not, ◌&&◌, ◌||◌,
  leb, nat_beq,
}

-- `viewset` of `sub_viewset`: a class, an instance with its class, or neither.
pub data Target : Type 0 where
  class_ : ℕ → Target
  instance_of : ℕ → Target
  neither : Target

-- `SubViewSet`; `C` is the type of action configurations
pub record SubViewSet (C : Type 0) : Type 0 where
  pub path : Text
  pub viewset : ℕ
  pub is_instance : Bool
  pub lifecycle : Text
  pub pk_field_name : Option Text
  pub register_muxws : Option Bool
  pub register_rest : Option Bool
  pub action_configuration : C

pub data MountError : Type 0 where
  not_one_segment reserved already_mounted unknown_lifecycle instance_needs_singleton
        not_a_viewset :
      MountError

pub data MountResult (C : Type 0) : Type 0 where
  mounted : SubViewSet C → MountResult C
  refused : MountError → MountResult C

-- `[A-Za-z0-9_.~-]`
unfoldable pub is_path_char : ℕ → Bool
is_path_char c =
    (leb b'A' c && leb c b'Z')
    || (leb b'a' c && leb c b'z')
    || (leb b'0' c && leb c b'9')
    || nat_beq c b'_'
    || nat_beq c b'.'
    || nat_beq c b'~'
    || nat_beq c b'-'

abbrev pub every : Text → Bool
every [] = true
every (c ∷ cs) = is_path_char c && every cs

-- `_PATH.fullmatch`
unfoldable pub is_segment : Text → Bool
unfolding is_path_char
is_segment [] = false
is_segment (c ∷ cs) = every (c ∷ cs)

-- `path.lstrip("/")`
unfoldable pub strip_left : Text → Text
strip_left [] = []
strip_left (c ∷ cs) = let rest = strip_left cs in if nat_beq c b'/' then rest else c ∷ cs

-- `path.strip("/")`
unfoldable pub strip_slashes : Text → Text
unfolding strip_left
strip_slashes path = reverse (strip_left (reverse (strip_left path)))

-- `LifecycleType`
abbrev pub lifecycles : List Text
lifecycles = text "singleton" ∷ text "per-request" ∷ text "instance-key" ∷ []

-- `sub_viewsets`
abbrev pub Mounts : Type 0 → Type 0
Mounts C = Dict Text (SubViewSet C)

-- The arguments of `sub_viewset` that it keeps.
pub record Options (C : Type 0) : Type 0 where
  pub lifecycle : Text
  pub pk_field_name : Option Text
  pub register_muxws : Option Bool
  pub register_rest : Option Bool
  pub action_configuration : C

module _ {C : Type 0} where
  abbrev pub mount_of : Text → ℕ → Bool → Options C → SubViewSet C
  mount_of segment cls is_instance options = record {
    path = segment;
    viewset = cls;
    is_instance = is_instance;
    lifecycle = options.lifecycle;
    pk_field_name = options.pk_field_name;
    register_muxws = options.register_muxws;
    register_rest = options.register_rest;
    action_configuration = options.action_configuration;
  }

  abbrev pub mount_at : Text → ℕ → Bool → Options C → Mounts C → Mounts C × MountResult C
  mount_at segment cls is_instance options mounts = (
    insert segment (mount_of segment cls is_instance options) mounts,
    mounted (mount_of segment cls is_instance options),
  )

  abbrev pub mount_target : Text → Target → Options C → Mounts C → Mounts C × MountResult C
  mount_target segment (class_ cls) options mounts = mount_at segment cls false options mounts
  mount_target segment (instance_of cls) options mounts =
      if options.lifecycle == text "singleton"
      then mount_at segment cls true options mounts
      else (mounts, refused instance_needs_singleton)
  mount_target segment neither options mounts = (mounts, refused not_a_viewset)

  abbrev pub has : Option (SubViewSet C) → Bool
  has none = false
  has (some _) = true

  -- `sub_viewset` past `segment = path.strip("/")`
  unfoldable pub mount_segment : Text → Target → Options C → Mounts C → Mounts C × MountResult C
  unfolding is_segment
  mount_segment segment viewset options mounts =
      if not (is_segment segment)
      then (mounts, refused not_one_segment)
      else (if segment == text "schema"
          then (mounts, refused reserved)
          else (if has (lookup segment mounts)
              then (mounts, refused already_mounted)
              else (if not (contains options.lifecycle lifecycles)
                  then (mounts, refused unknown_lifecycle)
                  else mount_target segment viewset options mounts)))

  -- `sub_viewset`
  unfoldable pub sub_viewset : Text → Target → Options C → Mounts C → Mounts C × MountResult C
  unfolding strip_slashes mount_segment
  sub_viewset path viewset options mounts =
      mount_segment (strip_slashes path) viewset options mounts

  -- the loop of `sub_viewsets_of` over the reversed MRO; a class without such a router mounts nothing
  unfoldable pub merge_mounts : List (Option (Mounts C)) → Mounts C → Mounts C
  merge_mounts [] mounts = mounts
  merge_mounts (none ∷ bases) mounts = merge_mounts bases mounts
  merge_mounts (some router ∷ bases) mounts = merge_mounts bases (update mounts router)

  -- `sub_viewsets_of`: `routers` has the own router of each class of the MRO, the class's first
  unfoldable pub sub_viewsets_of : List (Option (Mounts C)) → Mounts C
  unfolding merge_mounts
  sub_viewsets_of routers = merge_mounts (reverse routers) []

-- The loop of `mounted_under` over the mounts of one class, with `seen`, `pending` from its end, and the
-- classes that the generator has yielded.
pub record Search : Type 0 where
  pub seen : List ℕ
  pub pending : List ℕ
  pub yielded : List ℕ

unfoldable pub visit_one : ℕ → Search → Search
visit_one viewset s = if contains viewset s.seen then s else record s {
  seen = viewset ∷ s.seen;
  pending = viewset ∷ s.pending;
  yielded = s.yielded ++ viewset ∷ [];
}

unfoldable pub visit : List ℕ → Search → Search
unfolding visit_one
visit [] s = s
visit (viewset ∷ viewsets) s = visit viewsets (visit_one viewset s)

abbrev pub search_on : (ℕ → List ℕ) → List ℕ → (Search → Option (List ℕ)) → Search → Option (List ℕ)
search_on mounts [] go_on s = some s.yielded
search_on mounts (cls ∷ pending) go_on s =
    go_on (visit (mounts cls) (record s { pending = pending }))

-- `while pending`, at most `fuel` rounds; none where the fuel runs out
unfoldable pub search_all : (ℕ → List ℕ) → (fuel : ℕ) → Search → Option (List ℕ)
unfolding visit
search_all mounts zero s = none
search_all mounts (suc fuel) s = search_on mounts s.pending (search_all mounts fuel) s

-- `mounted_under`; `mounts` answers the classes of `sub_viewsets_of(cls).values()`
unfoldable pub mounted_under : (ℕ → List ℕ) → ℕ → ℕ → Option (List ℕ)
unfolding search_all
mounted_under mounts fuel cls =
    search_all mounts fuel (record { seen = []; pending = cls ∷ []; yielded = [] })
