-- ===== src/SubViewsets/Examples.antt =====
-- Mounts at concrete paths and classes.
use fastapi_viewsets.Prelude.{
  ℕ, zero, suc, text, lookup, insert, list_eq, nat_eq, List, [], ◌∷◌, none, some, true, contains,
  ◌≡◌, refl, arith,
}
use fastapi_viewsets.SubViewsets.{
  class_, refused, Mounts, Options, sub_viewset, reserved, already_mounted, not_one_segment,
  mounted_under,
}
use fastapi_viewsets.SubViewsets.Mounting.{IsRouter, sub_viewset-IsRouter}
use fastapi_viewsets.SubViewsets.Reachable.{Answers, mounted_under-Answers}

abbrev options : Options ℕ
options = record {
  lifecycle = text "singleton";
  pk_field_name = none;
  register_muxws = none;
  register_rest = none;
  action_configuration = 0;
}

abbrev empty : Mounts ℕ
empty = []

abbrev router : Mounts ℕ
router = (sub_viewset (text "/tracks/") (class_ 2) options empty).0

empty-IsRouter : IsRouter empty
unfolding lookup
empty-IsRouter path mount e = ground arith

again : sub_viewset (text "tracks") (class_ 3) options router ≡ (router, refused already_mounted)
unfolding sub_viewset lookup insert
again = refl

schema : sub_viewset (text "schema") (class_ 3) options router ≡ (router, refused reserved)
unfolding sub_viewset
schema = refl

two_segments :
    sub_viewset (text "a/b") (class_ 3) options router ≡ (router, refused not_one_segment)
unfolding sub_viewset
two_segments = refl

sub_viewset-IsRouter_example : IsRouter (sub_viewset (text "/tracks/") (class_ 2) options empty).0
sub_viewset-IsRouter_example =
    sub_viewset-IsRouter (text "/tracks/") (class_ 2) options empty empty-IsRouter

-- Class 1 mounts 2 and 3, class 2 mounts 3 and 1.
abbrev mounts : ℕ → List ℕ
mounts (suc zero) = 2 ∷ 3 ∷ []
mounts (suc (suc zero)) = 3 ∷ 1 ∷ []
mounts other = []

abbrev classes : List ℕ
classes = 1 ∷ 2 ∷ 3 ∷ []

mounts_known : (c v : ℕ) → contains v (mounts c) ≡ true → contains v classes ≡ true
mounts_known zero v h = ground arith
mounts_known (suc zero) v h = ground arith
mounts_known (suc (suc zero)) v h = ground arith
mounts_known (suc (suc (suc c))) v h = ground arith

cyclic : mounted_under mounts 5 1 ≡ some (2 ∷ 3 ∷ 1 ∷ [])
unfolding mounted_under
cyclic = refl

mounted_under-Answers_example : Answers mounts 1 (mounted_under mounts 5 1)
mounted_under-Answers_example = mounted_under-Answers mounts 1 classes 5 mounts_known (omega arith)
