-- ===== src/SpiedProgram/Relinking/Tests.antt =====
-- source/SpiedProgram.cpp: a test program, module 1, that asks for the library `z` of the program
-- under test, module 2. Module 1 needs it; module 3, a library of its own, does not.
use spytester.Base.{ℕ, true, List, [], ◌∷◌, Option, some, none, if◌then◌else◌, ◌==◌}
use spytester.Base.Texts.{Text}
use spytester.ElfFile.{DynEntry}
use spytester.Relinkage.{Rela}
use spytester.Relinkage.Sample.{space, relas}
use spytester.DynamicModule.Links.{World}
use spytester.DynamicNamespace.Libraries.{Libraries}

abbrev lib : Text
lib = b'z' ∷ []

abbrev name : ℕ → Text
name m = if m == 2 then lib else []

abbrev module_relas : ℕ → List Rela
module_relas m = if m == 1 then relas else []

abbrev dynstr : ℕ → List ℕ
dynstr m = 0 ∷ b'z' ∷ 0 ∷ []

abbrev dynamic : ℕ → List DynEntry
dynamic m = if m == 1 then record { tag = 1; val = 1 } ∷ [] else []

abbrev open_spied : Text → Option ℕ
open_spied path = some 2

abbrev open_here : Text → Option ℕ
open_here path = some 1

abbrev spied : Libraries ℕ
spied = record { executable = none; dynamic_lib = [] }

abbrev here : Libraries ℕ
here = record { executable = none; dynamic_lib = (b'c' ∷ [], 3) ∷ [] }

abbrev world : World
world = record { space = space; out = λ s l. none; ins = λ d. []; alive = λ m. true }
