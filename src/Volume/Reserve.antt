-- ===== src/Volume/Reserve.antt =====
-- src/core/volume.cpp: the reservation of a span of the data area for a document, and its commit.
-- The cross-process write lock is not part of the state: what its acquisition and its
-- revalidations answer is an argument, as are the times that the steps read.
use cyclone_cache.Common.{
  ℕ, ◌+◌, ◌-◌, ◌/◌, ◌%◌, min, Bool, true, false, ◌&&◌, not, Option, none, some, ltb, leb,
  if◌then◌else◌,
}
use cyclone_cache.Common.Words.{word_add, word_sub, word_mul}
use cyclone_cache.Volume.{
  Stripe, VolumeConfig, round_up_8, frontier_rel_of, pass_of, chunk_index_ceil,
}
use cyclone_cache.Volume.Lease.{lease_gate, set_wrap_intent, end_deferral_episode}
use cyclone_cache.Volume.Wrap.{
  WriteLockToken, store_exposure_gen, wrap_to, repair_after_forced_release,
}

-- What the lock and the clock answer during one reservation.
pub record Answers : Type 0 where
  pub token : WriteLockToken
  pub still_held : Bool
  pub still_held_at_wrap : Bool
  pub now_repair : ℕ
  pub now_wrap : ℕ
  pub now_gate : ℕ
  pub now_early : ℕ

pub record WriteSlot : Type 0 where
  pub write_offset : ℕ
  pub new_write_pos : ℕ
  pub holds_write_lock : Bool
  pub pass : ℕ
  pub fill_serial : ℕ
  pub fill_end : ℕ

pub data Reservation : Type 0 where
  reserved : WriteSlot → Reservation
  busy no_space : Reservation

abbrev pub frontier_abs : Stripe → ℕ → ℕ
frontier_abs s f = word_add s.offset (frontier_rel_of s f)

-- The stores of an advance once the gate has let it pass.
unfoldable pub advanced : ℕ → Stripe → Stripe
advanced gen s =
    let cleared = set_wrap_intent false (store_exposure_gen gen s) in
    record cleared {
      counters = record cleared.counters {
        frontier_advances = word_add cleared.counters.frontier_advances 1;
      };
    }

unfoldable pub advance_frontier : VolumeConfig → ℕ → ℕ → ℕ → ℕ → Bool → Stripe → Stripe × Bool
advance_frontier config now pass from to episode s =
    let (gated, go) = lease_gate config now from to episode (set_wrap_intent true s) in
    if leb to from
    then (s, true)
    else if go
    then (advanced (word_add (word_mul pass (s.chunks + 1)) to) gated, true)
    else (set_wrap_intent false gated, false)

unfoldable pub count_deferred_advance : Stripe → Stripe
count_deferred_advance s = record s {
  counters = record s.counters {
    advances_deferred_by_lease = word_add s.counters.advances_deferred_by_lease 1;
    writes_dropped_by_lease = word_add s.counters.writes_dropped_by_lease 1;
  };
}

unfoldable pub count_deferred_wrap : Stripe → Stripe
count_deferred_wrap s = record s {
  counters = record s.counters {
    wraps_deferred_by_lease = word_add s.counters.wraps_deferred_by_lease 1;
    writes_dropped_by_lease = word_add s.counters.writes_dropped_by_lease 1;
  };
}

unfoldable pub count_skipped_advance : Stripe → Stripe
count_skipped_advance s = record s {
  counters = record s.counters {
    early_advances_skipped = word_add s.counters.early_advances_skipped 1;
  };
}

-- The wrap of a stripe with retention, if the document does not fit, and the pass and frontier after it.
unfoldable pub prepare_wrap : Answers → ℕ → Stripe → Stripe × (ℕ × ℕ)
prepare_wrap answers doc_size s =
    let n = s.chunks in
    let pass = s.exposure_gen / (n + 1) in
    if ltb (word_sub (word_add s.offset s.size) s.write_pos) doc_size
    then (
      wrap_to answers.now_wrap answers.still_held_at_wrap (word_add pass 1)
          (word_mul (word_add pass 1) (n + 1)) s,
      (word_add pass 1, 0),
    )
    else (s, (pass, min (s.exposure_gen % (n + 1)) n))

-- The mandatory advance, to the chunks that the document needs, and the frontier after it.
unfoldable pub mandatory_advance : VolumeConfig → Answers → ℕ → ℕ → ℕ → Stripe → Stripe × (Bool × ℕ)
mandatory_advance config answers pass f need s =
    let t = chunk_index_ceil s need in
    let (moved, go) = advance_frontier config answers.now_gate pass f t true s in
    if ltb (frontier_abs s f) need
    then if go then (moved, (true, t)) else (count_deferred_advance moved, (false, f))
    else (s, (true, f))

-- The early advance, to half a chunk past the need.
unfoldable pub early_advance : VolumeConfig → Answers → ℕ → ℕ → ℕ → Stripe → Stripe
early_advance config answers pass f need s =
    let half = s.chunk_size / 2 in
    let t = chunk_index_ceil s (word_add need half) in
    let (moved, go) = advance_frontier config answers.now_early pass f t false s in
    if ltb f s.chunks && ltb (word_sub (frontier_abs s f) need) half
    then if go then moved else count_skipped_advance moved
    else s

unfoldable pub retention_prepare : VolumeConfig → Answers → ℕ → Stripe → Stripe × Option ℕ
retention_prepare config answers doc_size s =
    let (wrapped, (pass, f)) = prepare_wrap answers doc_size s in
    let need = word_add wrapped.write_pos doc_size in
    let (moved, (go, f')) = mandatory_advance config answers pass f need wrapped in
    if go then (early_advance config answers pass f' need moved, some pass) else (moved, none)

-- The wrap of a stripe in flush mode, if the document does not fit.
unfoldable pub flush_wrap : VolumeConfig → Answers → ℕ → Stripe → Stripe × Option ℕ
flush_wrap config answers doc_size s =
    let (gated, go) = lease_gate config answers.now_gate 0 s.chunks true (set_wrap_intent true s) in
    let pass = word_add (pass_of s gated.exposure_gen) 1 in
    let gen = word_add (word_mul pass (s.chunks + 1)) s.chunks in
    if ltb (word_sub (word_add s.offset s.size) s.write_pos) doc_size
    then if go
      then (
        wrap_to answers.now_wrap answers.still_held_at_wrap pass gen gated,
        some (pass_of s gen),
      )
      else (count_deferred_wrap (set_wrap_intent false gated), none)
    else (s, some (pass_of s s.exposure_gen))

unfoldable pub prepare_space : VolumeConfig → Answers → ℕ → Stripe → Stripe × Option ℕ
prepare_space config answers doc_size s =
    if s.retain
    then retention_prepare config answers doc_size s
    else flush_wrap config answers doc_size s

unfoldable pub count_lock : WriteLockToken → Stripe → Stripe
count_lock token s = record s {
  counters = record s.counters {
    write_lock_force_releases =
        if token.forced_release
        then word_add s.counters.write_lock_force_releases 1
        else s.counters.write_lock_force_releases;
    write_lock_escalation_takeovers =
        if token.escalated_takeover
        then word_add s.counters.write_lock_escalation_takeovers 1
        else s.counters.write_lock_escalation_takeovers;
    write_lock_live_holder_waits =
        word_add s.counters.write_lock_live_holder_waits token.live_waits;
  };
}

unfoldable pub count_usurp_abort : Stripe → Stripe
count_usurp_abort s = record s {
  counters = record s.counters {
    write_lock_usurp_aborts = word_add s.counters.write_lock_usurp_aborts 1;
  };
}

-- The shared cursor is taken over in either direction whenever it lies in the data area.
unfoldable pub adopt_cursor : Stripe → Stripe
adopt_cursor s =
    if leb s.data_offset s.shared_write_pos && leb s.shared_write_pos (word_add s.offset s.size)
    then record s { write_pos = s.shared_write_pos }
    else s

-- The part under the write lock before the reservation: `none` is the error `Busy`.
unfoldable pub enter_lock : Answers → Stripe → Stripe × Bool
enter_lock answers s =
    let counted = count_lock answers.token s in
    if not s.use_mmap_directory
    then (s, true)
    else if not answers.token.acquired
    then (s, false)
    else if not answers.still_held
    then (count_usurp_abort counted, false)
    else (adopt_cursor (repair_after_forced_release answers.now_repair answers.token counted), true)

-- The end of the zeros behind a large document, 0 for none.
unfoldable pub tail_fill : VolumeConfig → ℕ → ℕ → Stripe → ℕ
tail_fill config doc_size new_write_pos s =
    let raised = word_add new_write_pos 4095 in
    let page_end = raised - raised % 4096 in
    let in_area = min page_end (word_add s.offset s.size) in
    let f = min (s.exposure_gen % (s.chunks + 1)) s.chunks in
    let fill_end = if s.retain then min in_area (frontier_abs s f) else in_area in
    if config.fill_large_document_tail && ltb 65536 doc_size && leb new_write_pos fill_end
    then fill_end
    else 0

unfoldable pub reserve_at : VolumeConfig → Answers → ℕ → ℕ → Stripe → Reservation
reserve_at config answers doc_size pass s =
    let new_write_pos = word_add s.write_pos doc_size in
    reserved (record {
      write_offset = s.write_pos;
      new_write_pos = new_write_pos;
      holds_write_lock = s.use_mmap_directory;
      pass = pass;
      fill_serial = if s.use_mmap_directory then answers.token.generation else 0;
      fill_end = tail_fill config doc_size new_write_pos s;
    })

-- The end of a reservation: the space is there, or it is not.
unfoldable pub finish_reserve :
    VolumeConfig → Answers → ℕ → Stripe → Option ℕ → Stripe × Reservation
finish_reserve config answers doc_size ready none = (ready, no_space)
finish_reserve config answers doc_size ready (some pass) =
    let ended = end_deferral_episode ready in (ended, reserve_at config answers doc_size pass ended)

unfoldable pub reserve : VolumeConfig → Answers → ℕ → Stripe → Stripe × Reservation
reserve config answers doc_size s =
    let (ready, pass) = prepare_space config answers doc_size s in
    if ltb (word_sub (word_add s.offset s.size) s.data_offset) doc_size
    then (s, no_space)
    else finish_reserve config answers doc_size ready pass

unfoldable pub allocate_write_slot : VolumeConfig → Answers → ℕ → Stripe → Stripe × Reservation
allocate_write_slot config answers doc_size s =
    let (entered, held) = enter_lock answers s in
    if held then reserve config answers (round_up_8 doc_size) entered else (entered, busy)

-- `still_held` is the answer of the revalidation at the commit. The result is whether it is no error.
unfoldable pub commit_write_slot : WriteSlot → Bool → Bool → Stripe → Stripe × Bool
commit_write_slot slot still_held fill_ok s =
    if not slot.holds_write_lock
    then (if fill_ok then record s { write_pos = slot.new_write_pos } else s, true)
    else if not still_held
    then (count_usurp_abort s, false)
    else (
      if fill_ok
          then record s { write_pos = slot.new_write_pos; shared_write_pos = slot.new_write_pos }
          else s,
      true,
    )
