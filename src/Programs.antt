-- ===== src/Programs.antt =====
-- The programs of os/page.c that run the allocators and print their tables. A program's result is the
-- list of messages that it prints, in order, with the heap at the end.
pub mod MallocTest
pub mod Table
use Prim.Native.Char.{Char, code}
use Prim.Native.String.{String}
use xin_os.Base.{
  ℕ, zero, suc, ◌+◌, ◌*◌, ◌%◌, Bool, true, false, Option, none, some, List, [], ◌∷◌, ◌++◌, ◌==◌,
  if◌then◌else◌, Ptr, Memory,
}
use xin_os.Page.{Heap, page_alloc, page_free}
use xin_os.Malloc.{Outcome, done, panicked, out_of_fuel, page_freed}
use xin_os.Printf.{Arg, number}
use xin_os.Kernel.{Message}

-- The characters of a C string literal.
abbrev pub bytes : String → List ℕ
bytes String.[] = []
bytes (String.◌∷◌ c s) = code c ∷ bytes s

abbrev pub say : String → List Arg → Message
say s args = (bytes s, args)

abbrev pub and_after {ℓ κ} : {A : Type ℓ} {B : Type κ} → Outcome A → (A → Outcome B) → Outcome B
and_after (done a) f = f a
and_after panicked f = panicked
and_after out_of_fuel f = out_of_fuel

-- The loop of `printPageInfo`, by the rounds left; `printBlockInfo` has the same one.
pub print_flags : ℕ → Memory → Ptr → (counter : ℕ) → List Message
print_flags zero m p counter = []
print_flags (suc k) m p counter =
    let rest = print_flags k m (p + 1) (counter % 8 + 1) in
    say "| %d " (number (m p) ∷ []) ∷ (if counter == 8 then say "\n" [] ∷ rest else rest)

abbrev pub print_page_info : Memory → Ptr → ℕ → List Message
print_page_info m page n = print_flags n m page 1 ++ (say "\n" [] ∷ [])

abbrev pub print_block_info : Memory → Ptr → ℕ → List Message
print_block_info m block n = print_flags n m block 1 ++ (say "\n" [] ∷ [])

unfoldable pub page_test : Heap → Outcome (List Message × Heap)
unfolding page_alloc page_free print_flags
page_test h =
    let (p, h1) = page_alloc h 2 in
    let (p2, h2) = page_alloc h1 7 in
    and_after (page_freed h2 p2) (λ h3.
      let (p3, h4) = page_alloc h3 4 in
      and_after (page_freed h4 (p + 4096)) (λ h5.
        let (p4, h6) = page_alloc h5 4 in
        let (p5, h7) = page_alloc h6 1 in
        and_after (page_freed h7 p) (λ h8.
          let (p6, h9) = page_alloc h8 1 in
          done (
            (say "\n\n==============> page_test <==============\n\n" [] ∷ [])
                ++ print_page_info h.mem h.heap_start 16
                ++ (say "void *p = page_alloc(2);\n" []
                    ∷ say "p = 0x%x\n" (number p ∷ [])
                    ∷ say "Page Table:\n" []
                    ∷ [])
                ++ print_page_info h1.mem h.heap_start 16
                ++ (say "void *p2 = page_alloc(7);\n" []
                    ∷ say "p2 = 0x%x\n" (number p2 ∷ [])
                    ∷ say "Page Table:\n" []
                    ∷ [])
                ++ print_page_info h2.mem h.heap_start 16
                ++ (say "page_free(p2);\n" [] ∷ say "Page Table:\n" [] ∷ [])
                ++ print_page_info h3.mem h.heap_start 16
                ++ (say "void *p3 = page_alloc(4);\n" []
                    ∷ say "p3 = 0x%x\n" (number p3 ∷ [])
                    ∷ say "Page Table:\n" []
                    ∷ [])
                ++ print_page_info h4.mem h.heap_start 16
                ++ (say "page_free(p+4096);\n" [] ∷ say "Page Table:\n" [] ∷ [])
                ++ print_page_info h5.mem h.heap_start 16
                ++ (say "void *p4 = page_alloc(4);\n" []
                    ∷ say "p4 = 0x%x\n" (number p4 ∷ [])
                    ∷ say "Page Table:\n" []
                    ∷ [])
                ++ print_page_info h6.mem h.heap_start 16
                ++ (say "void *p5 = page_alloc(1);\n" []
                    ∷ say "p5 = 0x%x\n" (number p5 ∷ [])
                    ∷ say "Page Table:\n" []
                    ∷ [])
                ++ print_page_info h7.mem h.heap_start 16
                ++ (say "page_free(p);\n" [] ∷ say "Page Table:\n" [] ∷ [])
                ++ print_page_info h8.mem h.heap_start 16
                ++ (say "void *p6 = page_alloc(1);\n" []
                    ∷ say "p5 = 0x%x\n" (number p6 ∷ [])
                    ∷ say "Page Table:\n" []
                    ∷ [])
                ++ print_page_info h9.mem h.heap_start 16
                ++ (say "\n\n==============> END page_test <==============\n\n" [] ∷ []),
            h9,
          ))))
