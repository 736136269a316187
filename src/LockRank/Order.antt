-- ===== src/LockRank/Order.antt =====
-- The order of the ranks of rgoffi/go/gocruntime/lockrank.h.
use challenges.Common.{
  ℕ, ◌≡◌, refl, sym, ap, ◌∙◌, Option, none, some, ◌==◌, if◌then◌else◌, ◌<◌, ◌⊎◌, inl, inr, arith,
  dec_lt, ℕ_discrete,
}
use challenges.LockRank.{
  LockRank, rank_value, dummy, sysmon, scavenge, force_gc, sweep_waiters, assist_queue, cpu_prof,
  sweep, poll_desc, sched, dead_lock, all_g, all_p, timers, itab, reflect_offs, hchan, trace_buf,
  fin, notify_list, trace_strings, mspan_special, prof, gc_bits_arenas, root, trace,
  trace_stack_tab, netpoll_init, rw_mutex_w, rw_mutex_r, span_set_spine, gscan, stack_pool,
  stack_large, defer, sudog, wbuf_spans, mheap, mheap_special, global_alloc, page_alloc_scav, gfree,
  hchan_leaf, panic, new_mhandoff, debug_ptr_mask, faketime_state, ticks, race_fini, poll_cache,
  debug,
}

unfoldable rank_of : ℕ → Option LockRank
rank_of n =
    if n == 0
    then some dummy
    else if n == 1
    then some sysmon
    else if n == 2
    then some scavenge
    else if n == 3
    then some force_gc
    else if n == 4
    then some sweep_waiters
    else if n == 5
    then some assist_queue
    else if n == 6
    then some cpu_prof
    else if n == 7
    then some sweep
    else if n == 8
    then some poll_desc
    else if n == 9
    then some sched
    else if n == 10
    then some dead_lock
    else if n == 11
    then some all_g
    else if n == 12
    then some all_p
    else if n == 13
    then some timers
    else if n == 14
    then some itab
    else if n == 15
    then some reflect_offs
    else if n == 16
    then some hchan
    else if n == 17
    then some trace_buf
    else if n == 18
    then some fin
    else if n == 19
    then some notify_list
    else if n == 20
    then some trace_strings
    else if n == 21
    then some mspan_special
    else if n == 22
    then some prof
    else if n == 23
    then some gc_bits_arenas
    else if n == 24
    then some root
    else if n == 25
    then some trace
    else if n == 26
    then some trace_stack_tab
    else if n == 27
    then some netpoll_init
    else if n == 28
    then some rw_mutex_w
    else if n == 29
    then some rw_mutex_r
    else if n == 30
    then some span_set_spine
    else if n == 31
    then some gscan
    else if n == 32
    then some stack_pool
    else if n == 33
    then some stack_large
    else if n == 34
    then some defer
    else if n == 35
    then some sudog
    else if n == 36
    then some wbuf_spans
    else if n == 37
    then some mheap
    else if n == 38
    then some mheap_special
    else if n == 39
    then some global_alloc
    else if n == 40
    then some page_alloc_scav
    else if n == 41
    then some gfree
    else if n == 42
    then some hchan_leaf
    else if n == 43
    then some panic
    else if n == 44
    then some new_mhandoff
    else if n == 45
    then some debug_ptr_mask
    else if n == 46
    then some faketime_state
    else if n == 47
    then some ticks
    else if n == 48
    then some race_fini
    else if n == 49
    then some poll_cache
    else if n == 50
    then some debug
    else none

rank_of-value : (r : LockRank) → rank_of (rank_value r) ≡ some r
unfolding rank_of rank_value
rank_of-value dummy = refl
rank_of-value sysmon = refl
rank_of-value scavenge = refl
rank_of-value force_gc = refl
rank_of-value sweep_waiters = refl
rank_of-value assist_queue = refl
rank_of-value cpu_prof = refl
rank_of-value sweep = refl
rank_of-value poll_desc = refl
rank_of-value sched = refl
rank_of-value dead_lock = refl
rank_of-value all_g = refl
rank_of-value all_p = refl
rank_of-value timers = refl
rank_of-value itab = refl
rank_of-value reflect_offs = refl
rank_of-value hchan = refl
rank_of-value trace_buf = refl
rank_of-value fin = refl
rank_of-value notify_list = refl
rank_of-value trace_strings = refl
rank_of-value mspan_special = refl
rank_of-value prof = refl
rank_of-value gc_bits_arenas = refl
rank_of-value root = refl
rank_of-value trace = refl
rank_of-value trace_stack_tab = refl
rank_of-value netpoll_init = refl
rank_of-value rw_mutex_w = refl
rank_of-value rw_mutex_r = refl
rank_of-value span_set_spine = refl
rank_of-value gscan = refl
rank_of-value stack_pool = refl
rank_of-value stack_large = refl
rank_of-value defer = refl
rank_of-value sudog = refl
rank_of-value wbuf_spans = refl
rank_of-value mheap = refl
rank_of-value mheap_special = refl
rank_of-value global_alloc = refl
rank_of-value page_alloc_scav = refl
rank_of-value gfree = refl
rank_of-value hchan_leaf = refl
rank_of-value panic = refl
rank_of-value new_mhandoff = refl
rank_of-value debug_ptr_mask = refl
rank_of-value faketime_state = refl
rank_of-value ticks = refl
rank_of-value race_fini = refl
rank_of-value poll_cache = refl
rank_of-value debug = refl

-- What `rank_of` finds, as a rank again.
or_dummy : Option LockRank → LockRank
or_dummy none = dummy
or_dummy (some r) = r

-- Of two lock ranks one has the lower number, or they are the same rank.
pub rank-order :
    (r s : LockRank) → (rank_value r < rank_value s) ⊎ ((r ≡ s) ⊎ (rank_value s < rank_value r))
unfolding or_dummy
rank-order r s = elim (dec_lt (rank_value r) (rank_value s)) [
  | yes below ↦ inl below
  | no not_below ↦ elim (ℕ_discrete (rank_value r) (rank_value s)) [
    | yes same ↦ inr (inl (ap or_dummy (sym (rank_of-value r) ∙ ap rank_of same ∙ rank_of-value s)))
    | no other ↦ inr (inr (ground (arith, not_below, other)))
  ]
]
