-- ===== src/Volume/Admission.antt =====
-- src/core/volume.hpp and src/core/volume.cpp: the snapshot of a stripe and the checks that admit a
-- directory entry, a hop of a chain and a document against it. A count of rejections that the
-- stamp check keeps is left out.
use cyclone_cache.Common.{
  ℕ, ◌+◌, ◌%◌, min, Bool, false, ◌&&◌, ◌||◌, not, List, [], ◌∷◌, ◌++◌, Option, none, some, length,
  eqb, ltb, leb, ◌==◌, if◌then◌else◌,
}
use cyclone_cache.Common.Words.{word_sub, word_mul, low_32}
use cyclone_cache.Directory.Choose.{AdmitClass, is_reject}
use cyclone_cache.Directory.Entry.{DirEntry}
use cyclone_cache.Directory.Entry
use cyclone_cache.Document.{Document}
use cyclone_cache.Volume.{
  Stripe, in_data_area, current_write_cursor, frontier_rel_of, pass_of, exposure_threshold,
}

pub record StripeSnapshot : Type 0 where
  pub gen : ℕ
  pub pass : ℕ
  pub frontier : ℕ
  pub phase : Bool
  pub cursor_rel : ℕ
  pub frontier_rel : ℕ

unfoldable pub cursor_within : Stripe → ℕ → ℕ
cursor_within s cursor = if ltb s.offset cursor then min (word_sub cursor s.offset) s.size else 0

unfoldable pub frontier_index : Stripe → ℕ → ℕ
frontier_index s gen = min (word_sub gen (word_mul (pass_of s gen) (s.chunks + 1))) s.chunks

unfoldable pub snapshot : Stripe → StripeSnapshot
snapshot s = record {
  gen = s.exposure_gen;
  pass = pass_of s s.exposure_gen;
  frontier = frontier_index s s.exposure_gen;
  phase = pass_of s s.exposure_gen % 2 == 1;
  cursor_rel = cursor_within s (current_write_cursor s);
  frontier_rel = frontier_rel_of s (frontier_index s s.exposure_gen);
}

unfoldable pub admit_position : Stripe → StripeSnapshot → ℕ → Bool → AdmitClass
admit_position s snap rel entry_phase =
    if not (in_data_area s rel)
    then AdmitClass.reject
    else if eqb entry_phase snap.phase
    then if ltb rel snap.cursor_rel then AdmitClass.current else AdmitClass.reject
    else if s.retain && (ltb 0 snap.pass && leb snap.frontier_rel rel)
    then AdmitClass.retained
    else AdmitClass.reject

unfoldable pub expected_pass : AdmitClass → StripeSnapshot → ℕ
expected_pass AdmitClass.retained snap = word_sub snap.pass 1
expected_pass AdmitClass.current snap = snap.pass
expected_pass AdmitClass.reject snap = snap.pass

unfoldable pub hop_class : Stripe → StripeSnapshot → ℕ → AdmitClass → AdmitClass
hop_class s snap target AdmitClass.current =
    if ltb target snap.cursor_rel then AdmitClass.current else AdmitClass.reject
hop_class s snap target AdmitClass.retained =
    if s.retain && leb snap.frontier_rel target then AdmitClass.retained else AdmitClass.reject
hop_class s snap target AdmitClass.reject = AdmitClass.reject

unfoldable pub admit_hop : Stripe → StripeSnapshot → ℕ → ℕ → AdmitClass → AdmitClass
admit_hop s snap target source source_cls =
    if target == 0 || (not (in_data_area s target) || leb source target)
    then AdmitClass.reject
    else hop_class s snap target source_cls

unfoldable pub stamp_admits : Stripe → StripeSnapshot → AdmitClass → Document → Bool
stamp_admits s snap cls doc = not s.retain || doc.write_serial == low_32 (expected_pass cls snap)

-- `BorrowEpoch`, by its threshold.
unfoldable pub borrow_epoch : Stripe → ℕ → ℕ → ℕ
borrow_epoch s pass rel = exposure_threshold s pass rel

unfoldable pub admit_document : Stripe → StripeSnapshot → AdmitClass → ℕ → Document → Option ℕ
admit_document s snap cls rel doc =
    let epoch = borrow_epoch s (expected_pass cls snap) rel in
    if is_reject cls || not (stamp_admits s snap cls doc)
    then none
    else if ltb epoch snap.gen
    then none
    else some epoch

unfoldable pub node_admissible_now : Stripe → ℕ → Document → Bool
node_admissible_now s rel doc =
    let now = snapshot s in
    if not (in_data_area s rel)
    then false
    else if not s.retain
    then ltb rel now.cursor_rel
    else if doc.write_serial == low_32 now.pass
    then ltb rel now.cursor_rel
    else ltb 0 now.pass
      && (doc.write_serial == low_32 (word_sub now.pass 1) && leb now.frontier_rel rel)

unfoldable pub wrapped_since : Stripe → StripeSnapshot → Bool
wrapped_since s snap = not (pass_of s s.exposure_gen == snap.pass)

unfoldable pub entry_binds : DirEntry → Document → Bool
entry_binds entry doc = doc.fill_serial == Entry.fill_serial entry

-- `ProbeRejects`: the offsets and phases that were turned away, at most a bucket of them.
abbrev pub Rejects : Type 0
Rejects = List (ℕ × Bool)

unfoldable pub noted : ℕ → Bool → Rejects → Bool
noted rel phase [] = false
noted rel phase (r ∷ rs) = r.0 == rel && eqb r.1 phase || noted rel phase rs

unfoldable pub note : ℕ → Bool → Rejects → Rejects
note rel phase rejects =
    if noted rel phase rejects
    then rejects
    else if ltb (length rejects) 4
    then rejects ++ (rel, phase) ∷ []
    else rejects

unfoldable pub some_admitted : Stripe → StripeSnapshot → Rejects → Bool
some_admitted s now [] = false
some_admitted s now (r ∷ rs) =
    not (is_reject (admit_position s now r.0 r.1)) || some_admitted s now rs

unfoldable pub probe_raced_publish : Stripe → Rejects → Bool
probe_raced_publish s [] = false
probe_raced_publish s (r ∷ rs) = some_admitted s (snapshot s) (r ∷ rs)
