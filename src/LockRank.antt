-- ===== src/LockRank.antt =====
-- The ranks of the locks in rgoffi/go/gocruntime/lockrank.h.
pub mod Order
use challenges.Common.{ℕ}

pub data LockRank : Type 0 where
  dummy : LockRank
  sysmon : LockRank
  scavenge : LockRank
  force_gc : LockRank
  sweep_waiters : LockRank
  assist_queue : LockRank
  cpu_prof : LockRank
  sweep : LockRank
  poll_desc : LockRank
  sched : LockRank
  dead_lock : LockRank
  all_g : LockRank
  all_p : LockRank
  timers : LockRank
  itab : LockRank
  reflect_offs : LockRank
  hchan : LockRank
  trace_buf : LockRank
  fin : LockRank
  notify_list : LockRank
  trace_strings : LockRank
  mspan_special : LockRank
  prof : LockRank
  gc_bits_arenas : LockRank
  root : LockRank
  trace : LockRank
  trace_stack_tab : LockRank
  netpoll_init : LockRank
  rw_mutex_w : LockRank
  rw_mutex_r : LockRank
  span_set_spine : LockRank
  gscan : LockRank
  stack_pool : LockRank
  stack_large : LockRank
  defer : LockRank
  sudog : LockRank
  wbuf_spans : LockRank
  mheap : LockRank
  mheap_special : LockRank
  global_alloc : LockRank
  page_alloc_scav : LockRank
  gfree : LockRank
  hchan_leaf : LockRank
  panic : LockRank
  new_mhandoff : LockRank
  debug_ptr_mask : LockRank
  faketime_state : LockRank
  ticks : LockRank
  race_fini : LockRank
  poll_cache : LockRank
  debug : LockRank

-- The number of a rank: the enumerators count up from 0.
unfoldable pub rank_value : LockRank → ℕ
rank_value dummy = 0
rank_value sysmon = 1
rank_value scavenge = 2
rank_value force_gc = 3
rank_value sweep_waiters = 4
rank_value assist_queue = 5
rank_value cpu_prof = 6
rank_value sweep = 7
rank_value poll_desc = 8
rank_value sched = 9
rank_value dead_lock = 10
rank_value all_g = 11
rank_value all_p = 12
rank_value timers = 13
rank_value itab = 14
rank_value reflect_offs = 15
rank_value hchan = 16
rank_value trace_buf = 17
rank_value fin = 18
rank_value notify_list = 19
rank_value trace_strings = 20
rank_value mspan_special = 21
rank_value prof = 22
rank_value gc_bits_arenas = 23
rank_value root = 24
rank_value trace = 25
rank_value trace_stack_tab = 26
rank_value netpoll_init = 27
rank_value rw_mutex_w = 28
rank_value rw_mutex_r = 29
rank_value span_set_spine = 30
rank_value gscan = 31
rank_value stack_pool = 32
rank_value stack_large = 33
rank_value defer = 34
rank_value sudog = 35
rank_value wbuf_spans = 36
rank_value mheap = 37
rank_value mheap_special = 38
rank_value global_alloc = 39
rank_value page_alloc_scav = 40
rank_value gfree = 41
rank_value hchan_leaf = 42
rank_value panic = 43
rank_value new_mhandoff = 44
rank_value debug_ptr_mask = 45
rank_value faketime_state = 46
rank_value ticks = 47
rank_value race_fini = 48
rank_value poll_cache = 49
rank_value debug = 50
