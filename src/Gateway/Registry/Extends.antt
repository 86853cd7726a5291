-- ===== src/Gateway/Registry/Extends.antt =====
-- What `register` and `replaceCategory` of packages/core/src/tools/toolGateway.ts leave of the
-- definitions that were there.
use kross.Base.{
  ap, Option-cases, ◌≡◌, refl, String, List, [], ◌∷◌, ◌++◌, map, String-discrete, true, arith,
  text_eq_iff, inl, inr, ◌∙◌, some,
}
use kross.Base.Maps.{get, get-set}
use kross.Gateway.Registry.{
  Definition, Tools, Result, ok, err, register, check_replacement, drop_category, set_all,
  replace_category,
}
use kross.Gateway.Registry.Laws.{
  IsRegistry, is_outside, entries_outside, entry, set_all-IsRegistry, drop_category-Named,
  drop_category-Distinct, replace_category-append,
}

get-append :
    (k : String) (xs ys : Tools) (d : Definition)
    → get String-discrete k xs ≡ some d
    → get String-discrete k (xs ++ ys) ≡ some d
unfolding get
get-append k [] ys d h = cc
get-append k ((name, e) ∷ xs) ys d h = ground (arith, get-append k xs ys d)

get-entries_outside :
    (p k : String) (tools : Tools) (d : Definition)
    → is_outside p d ≡ true
    → get String-discrete k tools ≡ some d
    → get String-discrete k (entries_outside p tools) ≡ some d
unfolding get
get-entries_outside p k [] d o h = cc
get-entries_outside p k ((name, e) ∷ tools) d o h = ground (arith, get-entries_outside p k tools d)

-- No definition is replaced by another one.
abbrev pub Extends : Tools → Result → Type 0
Extends tools (ok t) =
    IsRegistry t
    × ((k : String) (d : Definition)
        → get String-discrete k tools ≡ some d
        → get String-discrete k t ≡ some d)
Extends tools (err e) = Unit

-- No definition outside the namespace is lost or replaced.
abbrev pub ExtendsOutside : String → Tools → Result → Type 0
ExtendsOutside p tools (ok t) =
    IsRegistry t
    × ((k : String) (d : Definition)
        → is_outside p d ≡ true
        → get String-discrete k tools ≡ some d
        → get String-discrete k t ≡ some d)
ExtendsOutside p tools (err e) = Unit

register-Extends :
    (d : Definition) (tools : Tools) → IsRegistry tools → Extends tools (register d tools)
unfolding register set_all
register-Extends d tools v = elim (Option-cases (get String-discrete d.name tools)) [
  | inr (old, e) ↦ rw (e, register) tt
  | inl e ↦
      rw (e, register)
        (
          set_all-IsRegistry (d ∷ []) tools v,
          λ k x h.
              ground (arith, get-set String-discrete d.name k d tools, h, e, text_eq_iff k d.name),
        )
]

replace_category-ExtendsOutside :
    (p : String) (ds : List Definition) (tools : Tools)
    → IsRegistry tools
    → ExtendsOutside p tools (replace_category p ds tools)
unfolding replace_category
replace_category-ExtendsOutside p ds tools v =
    elim (Option-cases (check_replacement p tools [] ds)) [
      | inr (x, e) ↦ rw (e, replace_category) tt
      | inl e ↦
          rw (e, replace_category)
            (
              set_all-IsRegistry ds _ dropped,
              λ k d o h.
                  ap (get String-discrete k)
                    (replace_category-append p ds tools v (rw (e, replace_category) refl))
                  ∙ get-append k _ (map entry ds) d (get-entries_outside p k tools d o h),
            )
    ]
  where
    dropped : IsRegistry (drop_category p tools)
    dropped = record {
      named = drop_category-Named p tools v.named;
      distinct = drop_category-Distinct p tools v.distinct;
    }

-- If no name occurs twice in a registry and each entry stands under its own name, then both still
-- hold where `register` or `replaceCategory` succeeds; after `register` every name that was taken
-- has the definition that it had; and after `replaceCategory` so has every name that was taken by a
-- definition outside the namespace.
pub register-replace-Extends :
    (p : String) (d : Definition) (ds : List Definition) (tools : Tools)
    → IsRegistry tools
    → Extends tools (register d tools) × ExtendsOutside p tools (replace_category p ds tools)
register-replace-Extends p d ds tools v =
    (register-Extends d tools v, replace_category-ExtendsOutside p ds tools v)
