-- ===== src/SubViewsets/Mounting.antt =====
-- What `sub_viewset` of fastapi_viewsets/decorators/sub_viewsets.py keeps of a router's mounts.
use fastapi_viewsets.Prelude.{
  Text, text, lookup, insert, lookup-insert, list_eq, nat_eq, ◌==◌, beq-eq, if◌then◌else◌, contains,
  some, Bool, true, false, not, ◌≡◌, refl, ap, sym, ◌∙◌, subst, arith, Bool-cases, inl, inr,
}
use fastapi_viewsets.SubViewsets.{
  Target, class_, instance_of, neither, SubViewSet, MountResult, refused, Mounts, Options,
  is_segment, strip_slashes, lifecycles, mount_of, mount_at, mount_target, mount_segment,
  sub_viewset, has, instance_needs_singleton,
}

not-false : (b : Bool) → not b ≡ false → b ≡ true
not-false true h = refl
not-false false h = ground arith

module _ {C : Type 0} where
  -- A mount as it may stand under a path: its own, one free segment; an instance is a singleton.
  pub record IsMount (path : Text) (mount : SubViewSet C) : Type 0 where
    pub own : mount.path ≡ path
    pub segment : is_segment path ≡ true
    pub free : (path == text "schema") ≡ false
    pub known : contains mount.lifecycle lifecycles ≡ true
    pub singleton : mount.is_instance ≡ true → mount.lifecycle ≡ text "singleton"

  abbrev pub IsRouter : Mounts C → Type 0
  IsRouter mounts =
      (path : Text) (mount : SubViewSet C) → lookup path mounts ≡ some mount → IsMount path mount

  insert-IsRouter :
      (segment : Text) (mount : SubViewSet C) (mounts : Mounts C)
      → IsRouter mounts
      → IsMount segment mount
      → IsRouter (insert segment mount mounts)
  insert-IsRouter segment mount mounts h new path found e =
      let looked = sym (lookup-insert segment path mount mounts) ∙ e in
      elim (Bool-cases (segment == path)) [
        | inl same ↦
            let here = sym (ap (λ b. if b then some mount else lookup path mounts) same) ∙ looked in
            let is_found : mount ≡ found = (cc here) in
            subst (λ f. IsMount path f) is_found
              (subst (λ p. IsMount p mount) (beq-eq segment path same) new)
        | inr differs ↦
            h path found
              (sym (ap (λ b. if b then some mount else lookup path mounts) differs) ∙ looked)
      ]

  if-IsRouter :
      (b : Bool) (x y : Mounts C × MountResult C)
      → (b ≡ true → IsRouter x.0)
      → (b ≡ false → IsRouter y.0)
      → IsRouter (if b then x else y).0
  if-IsRouter true x y h k = h refl
  if-IsRouter false x y h k = k refl

  mount_target-IsRouter :
      (segment : Text) (viewset : Target) (options : Options C) (mounts : Mounts C)
      → IsRouter mounts
      → is_segment segment ≡ true
      → (segment == text "schema") ≡ false
      → contains options.lifecycle lifecycles ≡ true
      → IsRouter (mount_target segment viewset options mounts).0
  mount_target-IsRouter segment (class_ cls) options mounts h s f k =
      insert-IsRouter segment (mount_of segment cls false options) mounts h
        (record { own = refl; segment = s; free = f; known = k; singleton = λ e. ground arith })
  mount_target-IsRouter segment (instance_of cls) options mounts h s f k =
      if-IsRouter (options.lifecycle == text "singleton") (mount_at segment cls true options mounts)
        (mounts, refused instance_needs_singleton)
        (λ single. insert-IsRouter segment (mount_of segment cls true options) mounts h (record {
          own = refl;
          segment = s;
          free = f;
          known = k;
          singleton = λ e. beq-eq options.lifecycle (text "singleton") single;
        }))
        (λ other. h)
  mount_target-IsRouter segment neither options mounts h s f k = h

  mount_segment-IsRouter :
      (segment : Text) (viewset : Target) (options : Options C) (mounts : Mounts C)
      → IsRouter mounts
      → IsRouter (mount_segment segment viewset options mounts).0
  unfolding mount_segment
  mount_segment-IsRouter segment viewset options mounts h =
      if-IsRouter (not (is_segment segment)) _ _ (λ e. h)
        λ s.
          if-IsRouter (segment == text "schema") _ _ (λ e. h)
            λ f.
              if-IsRouter (has (lookup segment mounts)) _ _ (λ e. h)
                λ n.
                  if-IsRouter (not (contains options.lifecycle lifecycles)) _ _ (λ e. h)
                    λ k.
                      mount_target-IsRouter segment viewset options mounts h
                        (not-false (is_segment segment) s) f
                        (not-false (contains options.lifecycle lifecycles) k)

  -- Whatever is mounted or refused, each mount of a router stands under its own path, which is one segment
  -- and not the reserved one, has a known lifecycle, and an instance is a singleton.
  pub sub_viewset-IsRouter :
      (path : Text) (viewset : Target) (options : Options C) (mounts : Mounts C)
      → IsRouter mounts
      → IsRouter (sub_viewset path viewset options mounts).0
  unfolding sub_viewset
  sub_viewset-IsRouter path viewset options mounts h =
      mount_segment-IsRouter (strip_slashes path) viewset options mounts h
