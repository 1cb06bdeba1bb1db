-- ===== src/Loader/Tests.antt =====
-- source/Loader.cpp: a program of one argument, loaded at 0x10000 with its entry point at 0x40.
use spytester.Base.{ℕ, ◌≡◌, refl, [], ◌∷◌, Option, none, some, ◌==◌, if◌then◌else◌, arith}
use spytester.ElfFile.{File, Elf, Layout, fresh}
use spytester.DynamicNamespace.{Stack, words_to_push, align, push_env, push_args, push_word}
use spytester.DynamicNamespace.Object.{Namespace, load_executable}
use spytester.Loader.{LoadEnd, entered, start, load}
use spytester.Loader.Agreement.{opened, entry_of, entry_at, Agrees, load-Agrees}

abbrev stack : Stack
stack = record { sp = 0x7008; words = λ x. 0 }

abbrev dlopen : ℕ → Option ℕ
dlopen path = if path == 0x500 then some 7 else none

abbrev link_map : ℕ → Option ℕ
link_map h = some 0x10000

abbrev file : File
file = record { seek = λ offset. none; read = λ offset n. none }

abbrev layout : Layout
layout = record {
  ehdr = λ b. record { entry = 0x40; shoff = 0; shentsize = 64; shnum = 0; shstrndx = 0 };
  shdr = λ b. record { type = 0; flags = 0; offset = 0; size = 0; entsize = 0 };
  sym = λ b. record { name = 0; info = 0; shndx = 0; value = 0 };
  dyn = λ b. record { tag = 0; val = 0 };
  rela = λ b. record { offset = 0; info = 0 };
}

abbrev elf_at : ℕ → Elf
elf_at l_addr = fresh (layout.ehdr []) []

abbrev argv : ℕ → ℕ
argv i = 0x500

abbrev ns : Namespace (ℕ × Elf)
ns = record {
  id = 2;
  lm = 0x900;
  argc = 1;
  argv = argv;
  envp = 0x600 ∷ [];
  libraries = record { executable = none; dynamic_lib = [] };
  loader = (0, elf_at 0);
  create_main_thread = 0x8000;
}

-- Where the jump goes, and the pointer of the stack there.
abbrev jump_of : LoadEnd ℕ → ℕ × ℕ
jump_of (entered h a t) = (a, t.sp)
jump_of _ = (0, 0)

load_run :
    jump_of (load dlopen link_map (entry_at elf_at) 1 argv (0x600 ∷ []) stack) ≡ (0x10040, 0x6fd0)
unfolding load start words_to_push align push_env push_args push_word
load_run = refl

load-Agrees_example :
    Agrees dlopen link_map file layout elf_at ns
      (load dlopen link_map (entry_at elf_at) 1 argv (0x600 ∷ []) stack)
      (load_executable
        (opened dlopen link_map file layout elf_at)
        (entry_of dlopen link_map file layout elf_at)
        ns
        stack)
unfolding words_to_push
load-Agrees_example = load-Agrees dlopen link_map file layout elf_at ns stack refl (omega arith)
