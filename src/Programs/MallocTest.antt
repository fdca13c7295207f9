-- ===== src/Programs/MallocTest.antt =====
-- `malloc_test` of os/page.c, with the messages of the `page_init` that it calls.
use xin_os.Base.{ℕ, ◌+◌, ◌*◌, List, [], ◌∷◌, ◌++◌}
use xin_os.Page.{Heap, page_size, page_init, page_alloc}
use xin_os.Malloc.{
  Outcome, done, page_freed, get_memory_usage_of_malloc, get_start_block_by_addr, malloc, free,
}
use xin_os.Printf.{number}
use xin_os.Kernel.{Image, Message, page_report}
use xin_os.Programs.{say, and_after, print_page_info, print_block_info}

unfoldable pub malloc_test : ℕ → Image → Heap → Outcome (List Message × Heap)
unfolding page_init page_alloc malloc free get_memory_usage_of_malloc get_start_block_by_addr
malloc_test fuel i h =
    let h1 = page_init h in
    let page1Mem = h1.alloc_start in
    let malloc_table = get_start_block_by_addr page1Mem in
    let (page1, h2) = page_alloc h1 1 in
    let (page2, h3) = page_alloc h2 1 in
    and_after (free fuel h3 page1) (λ h4.
      let (p1, h5) = malloc h4 1 in
      and_after (free fuel h5 p1) (λ h6.
        let (p2, h7) = malloc h6 2 in
        let (p3, h8) = malloc h7 4 in
        let (p4, h9) = malloc h8 8 in
        let (p5, h10) = malloc h9 16 in
        and_after (free fuel h10 (p5 + 4)) (λ h11. and_after (free fuel h11 (p4 + 4)) (λ h12.
          let (p6, h13) = malloc h12 4 in
          let (p7, h14) = malloc h13 (4 * 819) in
          and_after (free fuel h14 (p7 + 4 * 818)) (λ h15.
            let tmp = h15.alloc_start + page_size * 2 in
            let (p8, h16) = malloc h15 (4 * 4000) in
            and_after (page_freed h16 (p8 + 4096)) (λ h17. and_after (page_freed h17 p8) (λ h18.
              let (p9, h19) = malloc h18 4 in
              done (
                (say "\n\n==============> malloc_test <==============\n\n" [] ∷ [])
                    ++ page_report i h1
                    ++ (say "most operation are in first Pages\n" []
                        ∷ say "page1 = 0x%x\n" (number page1Mem ∷ [])
                        ∷ say "Page Table:\n" []
                        ∷ [])
                    ++ print_block_info h1.mem malloc_table 8
                    ++ (say "void * page1 = page_alloc(1);\n" []
                        ∷ say "page1 = 0x%x\n" (number page1 ∷ [])
                        ∷ say "Page Table:\n" []
                        ∷ [])
                    ++ print_page_info h2.mem h.heap_start 16
                    ++ (say "void * page2 = page_alloc(1);\n" []
                        ∷ say "page2 = 0x%x\n" (number page2 ∷ [])
                        ∷ say "Page Table:\n" []
                        ∷ [])
                    ++ print_page_info h3.mem h.heap_start 16
                    ++ (say "free(page1);\n" [] ∷ say "Page Table:\n" [] ∷ [])
                    ++ print_page_info h4.mem h.heap_start 16
                    ++ (say "void * p1 = malloc(sizeof(char));\n" []
                        ∷ say "p1 = 0x%x\n" (number p1 ∷ [])
                        ∷ say "Page Table:\n" []
                        ∷ [])
                    ++ print_page_info h5.mem h.heap_start 16
                    ++ (say "malloc Table:\n" [] ∷ [])
                    ++ print_block_info h5.mem malloc_table 40
                    ++ (say "free(p1);\n" [] ∷ say "Page Table:\n" [] ∷ [])
                    ++ print_page_info h6.mem h.heap_start 16
                    ++ (say "void * p2 = malloc(sizeof(short));\n" []
                        ∷ say "p2 = 0x%x\n" (number p2 ∷ [])
                        ∷ say "malloc Table:\n" []
                        ∷ [])
                    ++ print_block_info h7.mem malloc_table 40
                    ++ (say "void * p3 = malloc(sizeof(int));\n" []
                        ∷ say "p3 = 0x%x\n" (number p3 ∷ [])
                        ∷ say "malloc Table:\n" []
                        ∷ [])
                    ++ print_block_info h8.mem malloc_table 40
                    ++ (say "void * p4 = malloc(sizeof(long long int));\n" []
                        ∷ say "p4 = 0x%x\n" (number p4 ∷ [])
                        ∷ say "malloc Table:\n" []
                        ∷ [])
                    ++ print_block_info h9.mem malloc_table 40
                    ++ (say "void * p5 = malloc(sizeof(long double));\n" []
                        ∷ say "p5 = 0x%x\n" (number p5 ∷ [])
                        ∷ say "malloc Table:\n" []
                        ∷ [])
                    ++ print_block_info h10.mem malloc_table 40
                    ++ (say "free(p5+4);\n" [] ∷ say "malloc Table:\n" [] ∷ [])
                    ++ print_block_info h11.mem malloc_table 40
                    ++ (say "free(p4+4);\n" [] ∷ say "malloc Table:\n" [] ∷ [])
                    ++ print_block_info h12.mem malloc_table 40
                    ++ (say "void * p6 = malloc(sizeof(int));\n" []
                        ∷ say "p6 = 0x%x\n" (number p6 ∷ [])
                        ∷ say "malloc Table:\n" []
                        ∷ [])
                    ++ print_block_info h13.mem malloc_table 40
                    ++ (say "void * p7 = malloc(sizeof(int)*819);\n" []
                        ∷ say "p7 = 0x%x\n" (number p7 ∷ [])
                        ∷ say "Page Table:\n" []
                        ∷ [])
                    ++ print_page_info h14.mem h.heap_start 16
                    ++ (say "malloc Table:\n" [] ∷ [])
                    ++ print_block_info h14.mem malloc_table 40
                    ++ (say "free(p7+sizeof(int)*818);\n" [] ∷ [])
                    ++ print_block_info h15.mem (get_start_block_by_addr tmp + 800) 20
                    ++ (say "memory usage ==> %d\n" (
                          number (get_memory_usage_of_malloc h15.mem (get_start_block_by_addr tmp))
                          ∷ [])
                        ∷ say "void * p8 = malloc(sizeof(int)*4000);\n" []
                        ∷ say "p8 = 0x%x\n" (number p8 ∷ [])
                        ∷ say "Page Table:\n" []
                        ∷ [])
                    ++ print_page_info h16.mem h.heap_start 16
                    ++ (say "free(p8+4096);\n" [] ∷ say "Page Table:\n" [] ∷ [])
                    ++ print_page_info h17.mem h.heap_start 16
                    ++ (say "free(p8);\n" [] ∷ say "Page Table:\n" [] ∷ [])
                    ++ print_page_info h18.mem h.heap_start 16
                    ++ (say "void * p9 = malloc(sizeof(int));\n" []
                        ∷ say "p9 = 0x%x\n" (number p9 ∷ [])
                        ∷ say "malloc Table:\n" []
                        ∷ [])
                    ++ print_block_info h19.mem malloc_table 40
                    ++ (say "\n\n==============> END malloc_test <==============\n\n" [] ∷ []),
                h19,
              ))))))))
