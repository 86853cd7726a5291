-- ===== src/Gateway/Registry/Laws.antt =====
-- `register` and `replaceCategory` of packages/core/src/tools/toolGateway.ts and the entries of the
-- registry.
use text.Mathlib.Text.{starts_with}
use kross.Base.{
  not, Bool, some, filter_by, ap, sym, ◌≡◌, refl, String, List, [], ◌∷◌, ◌++◌, map, String-discrete,
  true, false, none, arith, text_eq, text_eq_iff, some_of, All, ◌∙◌,
}
use mathlib.Core.List.{append_assoc, append-nil}
use kross.Base.Maps.{get, set, set_fresh, get-set, Absent, Distinct, set-Distinct, get_of_Absent}
use kross.Gateway.Registry.{
  definitions_by_category, Definition, Tools, ok, in_category, check_replacement, drop_category,
  set_all, replace_category, is_foreign,
}

-- Each entry stands under its definition's name.
abbrev Named : Tools → Type 0
Named [] = Unit
Named ((name, d) ∷ tools) = (name ≡ d.name) × Named tools

pub record IsRegistry (tools : Tools) : Type 0 where
  pub named : Named tools
  pub distinct : Distinct tools

set-Named :
    (d : Definition) (tools : Tools) → Named tools → Named (set String-discrete d.name d tools)
unfolding set
set-Named d [] n = (refl, tt)
set-Named d ((name, e) ∷ tools) n = ground (arith, set-Named d tools)

pub drop_category-Named : (p : String) (tools : Tools) → Named tools → Named (drop_category p tools)
unfolding drop_category
drop_category-Named p [] n = tt
drop_category-Named p ((name, e) ∷ tools) n = ground (arith, drop_category-Named p tools)

drop_category-Absent :
    (p k : String) (tools : Tools) → Absent k tools → Absent k (drop_category p tools)
unfolding drop_category
drop_category-Absent p k [] n = tt
drop_category-Absent p k ((name, e) ∷ tools) n = ground (arith, drop_category-Absent p k tools)

pub drop_category-Distinct :
    (p : String) (tools : Tools) → Distinct tools → Distinct (drop_category p tools)
unfolding drop_category
drop_category-Distinct p [] n = tt
drop_category-Distinct p ((name, e) ∷ tools) n =
    ground (arith, drop_category-Distinct p tools, drop_category-Absent p name tools)

abbrev pub entry : Definition → String × Definition
entry d = (d.name, d)

get-drop_category :
    (p k : String) (tools : Tools)
    → Distinct tools
    → is_foreign p (get String-discrete k tools) ≡ false
    → get String-discrete k (drop_category p tools) ≡ none
unfolding get drop_category
get-drop_category p k [] d h = refl
get-drop_category p k ((name, e) ∷ tools) d h = ground (
  arith,
  get-drop_category p k tools,
  get_of_Absent String-discrete k (drop_category p tools),
  drop_category-Absent p name tools,
)

-- A name that is neither taken by another namespace nor among the incoming ones is free.
abbrev Free : String → Tools → List String → Tools → Type 0
Free p tools incoming acc =
    (n : String)
    → some_of (text_eq n) incoming ≡ false
    → is_foreign p (get String-discrete n tools) ≡ false
    → get String-discrete n acc ≡ none

Free-set :
    (p : String) (tools : Tools) (incoming : List String) (acc : Tools) (d : Definition)
    → Free p tools incoming acc
    → Free p tools (d.name ∷ incoming) (set String-discrete d.name d acc)
Free-set p tools incoming acc d free n h k =
    ground (arith, get-set String-discrete d.name n d acc, text_eq_iff n d.name, free n)

set_all-append :
    (p : String) (tools : Tools) (ds : List Definition) (incoming : List String) (acc : Tools)
    → check_replacement p tools incoming ds ≡ none
    → Free p tools incoming acc
    → set_all ds acc ≡ acc ++ map entry ds
unfolding check_replacement set_all
set_all-append p tools [] incoming acc h free = sym (append-nil acc)
set_all-append p tools (d ∷ ds) incoming acc h free =
    set_all-append p tools ds (d.name ∷ incoming) (set String-discrete d.name d acc) (ground arith)
      (Free-set p tools incoming acc d free)
    ∙ ap (λ t. t ++ map entry ds)
        (set_fresh String-discrete d.name d acc (free d.name (ground arith) (ground arith)))
    ∙ append_assoc acc (entry d ∷ []) (map entry ds)

replace_category-ok :
    (p : String) (ds : List Definition) (tools : Tools) {t : Tools}
    → replace_category p ds tools ≡ ok t
    → (check_replacement p tools [] ds ≡ none) × (t ≡ set_all ds (drop_category p tools))
unfolding replace_category
replace_category-ok p ds tools h = ground arith

-- The definition has no category, or one that does not begin with the prefix.
abbrev pub is_outside : String → Definition → Bool
is_outside p d = elim d.category [ none ↦ true | some c ↦ not (starts_with c p) ]

abbrev pub entries_outside : String → Tools → Tools
entries_outside p tools = filter_by (λ (e : String × Definition). is_outside p e.1) tools

drop_category_lem : (p : String) (tools : Tools) → drop_category p tools ≡ entries_outside p tools
unfolding drop_category in_category
drop_category_lem p [] = refl
drop_category_lem p ((name, d) ∷ tools) = ground (arith, drop_category_lem p tools)

replaced_lem :
    (p : String) (ds : List Definition) (tools : Tools) {t : Tools}
    → IsRegistry tools
    → replace_category p ds tools ≡ ok t
    → t ≡ drop_category p tools ++ map entry ds
replaced_lem p ds tools v h =
    let (checked, e) = replace_category-ok p ds tools h in
    e
    ∙ set_all-append p tools ds [] (drop_category p tools) checked
        λ n u f. get-drop_category p n tools v.distinct f

-- If no name occurs twice in a registry, each entry stands under its own name, and
-- `replaceCategory` succeeds, then the registry holds the entries whose definition has no category
-- that begins with the prefix, in their order, followed by the given definitions under their names,
-- in theirs.
pub replace_category-append :
    (p : String) (ds : List Definition) (tools : Tools) {t : Tools}
    → IsRegistry tools
    → replace_category p ds tools ≡ ok t
    → t ≡ entries_outside p tools ++ map entry ds
replace_category-append p ds tools v h =
    replaced_lem p ds tools v h ∙ ap (λ u. u ++ map entry ds) (drop_category_lem p tools)

pub set_all-IsRegistry :
    (ds : List Definition) (tools : Tools) → IsRegistry tools → IsRegistry (set_all ds tools)
unfolding set_all
set_all-IsRegistry [] tools v = v
set_all-IsRegistry (d ∷ ds) tools v =
    set_all-IsRegistry ds (set String-discrete d.name d tools) (record {
      named = set-Named d tools v.named;
      distinct = set-Distinct String-discrete d.name d tools v.distinct;
    })

abbrev pub InCategory : String → Definition → Type 0
InCategory p d = in_category p d ≡ true

filter-drop_category :
    (p : String) (tools rest : Tools)
    → definitions_by_category p (drop_category p tools ++ rest) ≡ definitions_by_category p rest
unfolding definitions_by_category drop_category
filter-drop_category p [] rest = refl
filter-drop_category p ((name, d) ∷ tools) rest = ground (arith, filter-drop_category p tools rest)

filter_entries :
    (p : String) (ds : List Definition)
    → All (InCategory p) ds
    → definitions_by_category p (map entry ds) ≡ ds
unfolding definitions_by_category
filter_entries p [] h = refl
filter_entries p (d ∷ ds) h = ground (arith, filter_entries p ds)

-- If no name occurs twice in a registry, each entry stands under its own name, the given
-- definitions belong to the namespace, and `replaceCategory` succeeds, then `definitionsByCategory`
-- returns exactly the given definitions, in order.
pub definitions_by_category-replace :
    (p : String) (ds : List Definition) (tools : Tools) {t : Tools}
    → IsRegistry tools
    → All (InCategory p) ds
    → replace_category p ds tools ≡ ok t
    → definitions_by_category p t ≡ ds
definitions_by_category-replace p ds tools v own h =
    ap (definitions_by_category p) (replaced_lem p ds tools v h)
    ∙ filter-drop_category p tools (map entry ds)
    ∙ filter_entries p ds own
