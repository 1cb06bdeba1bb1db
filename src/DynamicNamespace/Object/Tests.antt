-- ===== src/DynamicNamespace/Object/Tests.antt =====
-- source/DynamicNamespace.cpp: two namespaces made on a loader with two ids.
use spytester.Base.Texts.{Text}
use spytester.Base.{
  ℕ, ◌+◌, ◌≡◌, refl, List, [], ◌∷◌, Option, none, some, ◌==◌, if◌then◌else◌, arith,
}
use spytester.SpyLoader.{NamespaceIds, emplace, reserve_namespace_id}
use spytester.DynamicNamespace.Object.{
  Namespace, get_link_map, initialised, checked, new, DlInfo, convert_dyn_symbol_addr,
}
use spytester.DynamicNamespace.Object.Lifetime.{IsLoader, Created, new-Created}

abbrev ids : NamespaceIds ℕ
ids = record { avl = 2 ∷ 3 ∷ []; used = [] }

ids-IsLoader : IsLoader ids
ids-IsLoader = record { held_once = λ k. ground arith; no_no_id = refl; no_base = refl }

-- The link map of namespace 3 has two others before it.
abbrev link_map : ℕ → Option ℕ
link_map id = get_link_map some (λ h. some (id + 0x900, 0x20 ∷ 0x10 ∷ [])) id

-- libSpyLoader.so can be opened in namespace 2 only, as the number 9.
abbrev open_loader : ℕ → Option ℕ
open_loader id = if id == 2 then some 9 else none

abbrev main_of : ℕ → ℕ
main_of d = 0x8000

abbrev argv : ℕ → ℕ
argv i = 0x500

-- What is left of a namespace's constructor.
abbrev made : NamespaceIds ℕ × Option (Namespace ℕ) → List ℕ × List (ℕ × ℕ) × ℕ
made (s, none) = (s.avl, s.used, 0)
made (s, some ns) = (s.avl, s.used, ns.lm)

new_run : made (new link_map open_loader main_of 70 1 argv [] ids) ≡ (3 ∷ [], (2, 70) ∷ [], 0x10)
unfolding new initialised checked get_link_map reserve_namespace_id emplace
new_run = refl

-- The id 3 is lost.
new_lost :
    made (
      new link_map open_loader main_of 80 1 argv []
        (new link_map open_loader main_of 70 1 argv [] ids).0)
    ≡ ([], (2, 70) ∷ (3, 80) ∷ [], 0)
unfolding new initialised checked get_link_map reserve_namespace_id emplace
new_lost = refl

new-Created_example :
    Created link_map open_loader main_of 1 argv [] ids 2
      (new link_map open_loader main_of 70 1 argv [] ids)
unfolding reserve_namespace_id
new-Created_example = new-Created link_map open_loader main_of 1 argv [] 70 ids ids-IsLoader

-- The function at 0x40 of the file `a` is `f`, which stands at 0x1040 in the file's copy there.
abbrev dladdr : ℕ → Option DlInfo
dladdr a =
    if a == 0 then none else some (record { saddr = 0x40; sname = b'f' ∷ []; fname = b'a' ∷ [] })

abbrev open_loaded : ℕ → Text → Option ℕ
open_loaded id file = if id == 2 then some 0x1000 else none

convert_run : convert_dyn_symbol_addr dladdr open_loaded (λ h name. h + 0x40) 2 0x40 ≡ 0x1040
unfolding convert_dyn_symbol_addr
convert_run = refl

-- In the middle of the function.
convert_inside : convert_dyn_symbol_addr dladdr open_loaded (λ h name. h + 0x40) 2 0x41 ≡ 0
unfolding convert_dyn_symbol_addr
convert_inside = refl
