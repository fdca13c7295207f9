-- ===== src/Kernel/Tests.antt =====
-- A start of os/kernel.c on a small heap, and the theorems there.
use xin_os.Base.{
  ℕ, zero, suc, ◌*◌, ◌≡◌, refl, Option, none, some, false, List, [], ◌∷◌, ◌++◌, length, arith, Ptr,
  null,
}
use xin_os.Hart.{Hart}
use xin_os.Page.{Heap, page_init}
use xin_os.Task.{runnable, TaskInfo, Sched}
use xin_os.Task.Insert.{IsQueue}
use xin_os.Task.Number.{IsNumbered}
use xin_os.Task.Fair.{turns}
use xin_os.Chain.Wait.{Among}
use xin_os.Uart.Send.{Idles, ended, idle}
use xin_os.Printf.Text.{render}
use xin_os.Kernel.{Message, Image, System, start_kernel, user_init, hello, page_report}
use xin_os.Kernel.Users.{user_init-turns}
use xin_os.Kernel.Boot.{Texts, no_text, text_then, Started, start_kernel-Started}

abbrev image : Image
image = record {
  text_start = 0x8000_0000;
  text_end = 0x8000_4000;
  rodata_start = 0x8000_4000;
  rodata_end = 0x8000_5000;
  data_start = 0x8000_5000;
  data_end = 0x8000_6000;
  bss_start = 0x8000_6000;
  bss_end = 0x8000_a000;
  trap_vector = 0x8000_0100;
  kernel_pc = 0x8000_0200;
  user_task1 = 0x8000_0300;
  user_task2 = 0x8000_0400;
  user_task3 = 0x8000_0500;
}

abbrev hart : Hart
hart = record {
  hart_id = 0;
  mstatus = 0;
  mie = 0;
  mscratch = 0;
  mtvec = 0;
  msip = 0;
  mtime = 7;
  mtimecmp = 0;
}

abbrev no_info : TaskInfo
no_info = record {
  task_id = λ _. 0;
  priority = λ _. 0;
  state = λ _. runnable;
  timeslice = λ _. 0;
  next = λ _. 0;
  ctx_sp = λ _. 0;
  ctx_pc = λ _. 0;
  ctx_a0 = λ _. 0;
}

abbrev no_tasks : Sched
no_tasks = record {
  tasks_num = 0;
  next_task_id = 1;
  cur_task = null;
  first_task = null;
  os_task = 50;
  os_stack = 0x4000;
  task_stack = 0x5200;
  tasks = no_info;
  hart = hart;
}

no_tasks-IsQueue : IsQueue no_tasks []
no_tasks-IsQueue = omega arith

no_tasks-IsNumbered : IsNumbered no_tasks []
no_tasks-IsNumbered = record {
  ready = record { queue = no_tasks-IsQueue; ids = tt; sorted = tt };
  fresh = tt;
}

user_init-turns_example :
    (s' : Sched) × (user_init 4 image 100 200 300 no_tasks ≡ some s')
    × ((q : Ptr) → Among q (100 ∷ 200 ∷ 300 ∷ []) → Among q (turns 18 4 s'))
user_init-turns_example =
    user_init-turns 4 image 100 200 300 no_tasks no_tasks-IsNumbered (omega arith) (omega arith)
      (omega arith) (omega arith) (λ q m. refl)

-- A line with as many idle readings as wanted.
abbrev ready : ℕ → List ℕ
ready zero = []
ready (suc n) = 32 ∷ ready n

ready-Idles : (n : ℕ) → Idles n (ready n) []
ready-Idles zero = ended _
ready-Idles (suc n) = idle 32 refl (ready-Idles n)

abbrev heap : Heap
heap = record {
  heap_start = 0x8001_0000;
  heap_size = 20 * 4096;
  alloc_start = 0;
  alloc_end = 0;
  num_pages = 0;
  mem = λ _. 0;
}

abbrev laid_out : Heap
laid_out = page_init heap

text_or_none : Option (List ℕ) → List ℕ
text_or_none none = []
text_or_none (some xs) = xs

text_of : Message → List ℕ
text_of m = text_or_none (render m.0 false false m.1)

texts_of : List Message → List ℕ
texts_of [] = []
texts_of (m ∷ ms) = text_of m ++ texts_of ms

abbrev messages : List Message
messages = (hello, []) ∷ page_report image laid_out

messages-Texts : Texts messages (texts_of messages)
unfolding texts_of text_of text_or_none render page_init
messages-Texts = text_then _ _ refl (omega arith) (omega arith) (
    text_then _ _ refl (omega arith) (omega arith) (
      text_then _ _ refl (omega arith) (omega arith) (
        text_then _ _ refl (omega arith) (omega arith) (
          text_then _ _ refl (omega arith) (omega arith) (
            text_then _ _ refl (omega arith) (omega arith)
              (text_then _ _ refl (omega arith) (omega arith) no_text))))))

abbrev system : System
system = record {
  machine = record {
    timers = record {
      first_timer = null;
      ticks = 0;
      cur_task_start_tick = 0;
      info = record {
        func = λ _. 0;
        args = λ _. 0;
        next = λ _. 0;
        timeout = λ _. 0;
        task = λ _. 0;
      };
      sched = no_tasks;
    };
    plic = record { uart_priority = 0; menable = 0; mthreshold = 7; claim = 0; completed = [] };
    uart = record {
      ier = 0;
      lcr = 0;
      dll = 0;
      dlm = 0;
      status = ready (length (texts_of messages));
      received = [];
      sent = [];
    };
  };
  heap = heap;
  out_buf = λ _. 0;
}

start_kernel-Started_example :
    Started image system (texts_of messages) (start_kernel 1 image system)
start_kernel-Started_example =
    start_kernel-Started 0 image system (texts_of messages) [] refl refl (omega arith) (omega arith)
      (omega arith) messages-Texts (ready-Idles (length (texts_of messages)))
