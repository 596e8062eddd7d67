-- ===== src/Storage/Pager/Keeping.antt =====
-- What the operations of src/storage/Pager.cpp leave as it is.
use dan_db.Prelude.{
  ℕ, ◌+◌, ◌%◌, ◌^◌, if-both, replicate, if◌then◌else◌, Bool, not, ◌||◌, List, [], ◌∷◌, ◌≡◌, refl,
  ◌∙◌, ◌==◌,
}
use dan_db.Prelude.Map.{Map, insert}
use dan_db.Prelude.Sets.{contains}
use dan_db.Core.Status.{Result, ok, err, not_found}
use dan_db.Core.Bytes.{Bytes, page_size}
use dan_db.Platform.File.{FileOps}
use dan_db.Storage.Page.{new_page as blank_page, Page, PageId, header_page_id, invalid_page_id}
use dan_db.Storage.DatabaseHeader
use dan_db.Storage.DatabaseHeader.{DatabaseHeader}
use dan_db.Transaction.TransactionState.{in_transaction, is_failed, is_unresolved, insert_id}
use dan_db.Buffer.BufferPoolManager
use dan_db.Buffer.BufferPoolManager.{PagePin, BufferPool, release, frame_at}
use dan_db.Storage.Pager.{
  Pager, Outcome, get_page, get_cached, cache_found, find_page, with_pin, new_page, new_cached,
  new_marked, mark_dirty, keep_header, keep_pinned, keep_original, set_bpm, set_state, set_header,
  set_page_count, and_then, has_entry,
}
use dan_db.Storage.Pager.Transactions.{
  with_bpm, restore_header, restore_original, restore_originals, discard_pages, pinned_snapshot,
  dirty_page_snapshot, snapshots, snapshot_step, add_page,
}

module _ {Disk Log : Type 0} (disk_ops : FileOps Disk) (wal_ops : FileOps Log) where
  -- A part of a pager that reading and changing pages in a transaction does not touch.
  pub record IsKept {X : Type 0} (part : Pager Disk Log → X) : Type 0 where
    pub over_bpm :
        (p : Pager Disk Log) (bpm : BufferPool) → part (set_bpm disk_ops wal_ops p bpm) ≡ part p
    pub over_header :
        (p : Pager Disk Log) (h : DatabaseHeader) → part (set_header disk_ops wal_ops p h) ≡ part p
    pub over_sets :
        (p : Pager Disk Log) (dirty new : List PageId) (originals : Map Page)
        → part (
            set_state disk_ops wal_ops p (record p.transaction_state {
              dirty_page_ids = dirty;
              new_page_ids = new;
              original_pages = originals;
            }))
          ≡ part p

  -- What the pool may change.
  module _ {X : Type 0} (part : Pager Disk Log → X)
      (over_bpm : (p : Pager Disk Log) (bpm : BufferPool)
        → part (set_bpm disk_ops wal_ops p bpm) ≡ part p) where
    -- Neither does a guard.
    unless :
        {A : Type 0} (p : Pager Disk Log) (test : Bool) (a : A) (x : A × Pager Disk Log)
        → part x.1 ≡ part p
        → part (if test then (a, p) else x).1 ≡ part p
    unless {A = A} p test a x h =
        if-both (λ (y : A × Pager Disk Log). part y.1 ≡ part p) test {x = (a, p)} {y = x} refl h

    with_pin-kept :
        (p : Pager Disk Log) (r : Result PagePin × BufferPool)
        → part (with_pin disk_ops wal_ops p r).1 ≡ part p
    unfolding with_pin
    with_pin-kept p (r, bpm) = over_bpm p bpm

    cache_found-kept :
        (p : Pager Disk Log) (r : Result Page) → part (cache_found disk_ops wal_ops p r).1 ≡ part p
    unfolding cache_found
    cache_found-kept p (err e) = refl
    cache_found-kept p (ok page) = with_pin-kept p (BufferPoolManager.cache_page p.bpm page)

    get_cached-kept :
        (id : PageId) (p : Pager Disk Log) (r : Result PagePin × BufferPool)
        → part (get_cached disk_ops wal_ops id p r).1 ≡ part p
    unfolding get_cached
    get_cached-kept id p (ok page_pin, bpm) = over_bpm p bpm
    get_cached-kept id p (err not_found, bpm) =
        let q = set_bpm disk_ops wal_ops p bpm in
        cache_found-kept q (find_page disk_ops wal_ops q id) ∙ over_bpm p bpm
    get_cached-kept id p (err e, bpm) = over_bpm p bpm

    pub get_page-kept :
        (p : Pager Disk Log) (id : PageId) → part (get_page disk_ops wal_ops p id).1 ≡ part p
    unfolding get_page
    get_page-kept p id = unless p p.closed _ _ (
        unless p (id == invalid_page_id || id == header_page_id) _ _
          (get_cached-kept id p (BufferPoolManager.get_page p.bpm id)))

    pub and_then-kept :
        (o : Outcome disk_ops wal_ops) (f : Pager Disk Log → Outcome disk_ops wal_ops)
        → ((q : Pager Disk Log) → part (f q).1 ≡ part q)
        → part (and_then disk_ops wal_ops o f).1 ≡ part o.1
    unfolding and_then
    and_then-kept (err e, p) f h = refl
    and_then-kept (ok u, p) f h = h p

    with_bpm-kept :
        (p : Pager Disk Log) (r : Result (Unit {0}) × BufferPool)
        → part (with_bpm disk_ops wal_ops p r).1 ≡ part p
    unfolding with_bpm
    with_bpm-kept p (r, bpm) = over_bpm p bpm

    pub discard_pages-kept :
        (p : Pager Disk Log) (ids : List PageId)
        → part (discard_pages disk_ops wal_ops p ids).1 ≡ part p
    unfolding discard_pages
    discard_pages-kept p [] = refl
    discard_pages-kept p (id ∷ ids) =
        and_then-kept (with_bpm disk_ops wal_ops p (BufferPoolManager.discard_page p.bpm id)) _
          (λ q. discard_pages-kept q ids)
        ∙ with_bpm-kept p (BufferPoolManager.discard_page p.bpm id)

    pinned_snapshot-kept :
        (p : Pager Disk Log) (r : Result PagePin × BufferPool)
        → part (pinned_snapshot disk_ops wal_ops p r).1 ≡ part p
    unfolding pinned_snapshot
    pinned_snapshot-kept p (err e, bpm) = over_bpm p bpm
    pinned_snapshot-kept p (ok page_pin, bpm) = over_bpm p (release bpm page_pin).0

    dirty_page_snapshot-kept :
        (p : Pager Disk Log) (id : PageId)
        → part (dirty_page_snapshot disk_ops wal_ops p id).1 ≡ part p
    unfolding dirty_page_snapshot
    dirty_page_snapshot-kept p id =
        if-both (λ (x : Result Page × Pager Disk Log). part x.1 ≡ part p) (id == header_page_id)
          refl (pinned_snapshot-kept p (BufferPoolManager.get_page p.bpm id))

    add_page-kept :
        (page : Page) (r : Result (List Page) × Pager Disk Log)
        → part (add_page disk_ops wal_ops page r).1 ≡ part r.1
    unfolding add_page
    add_page-kept page (err e, p) = refl
    add_page-kept page (ok pages, p) = refl

    snapshot_step-kept :
        (rest : Pager Disk Log → Result (List Page) × Pager Disk Log)
        (r : Result Page × Pager Disk Log)
        → ((q : Pager Disk Log) → part (rest q).1 ≡ part q)
        → part (snapshot_step disk_ops wal_ops rest r).1 ≡ part r.1
    unfolding snapshot_step
    snapshot_step-kept rest (err e, p) h = refl
    snapshot_step-kept rest (ok page, p) h = add_page-kept page (rest p) ∙ h p

    pub snapshots-kept :
        (p : Pager Disk Log) (ids : List PageId)
        → part (snapshots disk_ops wal_ops p ids).1 ≡ part p
    unfolding snapshots
    snapshots-kept p [] = refl
    snapshots-kept p (id ∷ ids) =
        snapshot_step-kept (λ q. snapshots disk_ops wal_ops q ids)
          (dirty_page_snapshot disk_ops wal_ops p id) (λ q. snapshots-kept q ids)
        ∙ dirty_page_snapshot-kept p id

  module _ {X : Type 0} (part : Pager Disk Log → X) (kept : IsKept part) where
    keep_original-kept :
        (p : Pager Disk Log) (id : PageId) (page : Page)
        → part (keep_original disk_ops wal_ops p id page).1 ≡ part p
    unfolding keep_original
    keep_original-kept p id page =
        let t = p.transaction_state in
        kept.over_sets p (insert_id id t.dirty_page_ids) t.new_page_ids
          (insert id page t.original_pages)

    keep_header-kept :
        (p : Pager Disk Log) (r : Result Bytes) → part (keep_header disk_ops wal_ops p r).1 ≡ part p
    unfolding keep_header
    keep_header-kept p (err e) = refl
    keep_header-kept p (ok bytes) =
        keep_original-kept p header_page_id (record { id = header_page_id; contents = bytes })

    keep_pinned-kept :
        (p : Pager Disk Log) (id : PageId) (r : Result PagePin × BufferPool)
        → part (keep_pinned disk_ops wal_ops p id r).1 ≡ part p
    unfolding keep_pinned
    keep_pinned-kept p id (err e, bpm) = kept.over_bpm p bpm
    keep_pinned-kept p id (ok page_pin, bpm) =
        let q = set_bpm disk_ops wal_ops p (release bpm page_pin).0 in
        keep_original-kept q id (frame_at bpm page_pin.frame_id).page
        ∙ kept.over_bpm p (release bpm page_pin).0

    pub mark_dirty-kept :
        (p : Pager Disk Log) (id : PageId) → part (mark_dirty disk_ops wal_ops p id).1 ≡ part p
    unfolding mark_dirty
    mark_dirty-kept p id = unless part kept.over_bpm p p.closed _ _ (
        unless part kept.over_bpm p (id == invalid_page_id) _ _ (
          unless part kept.over_bpm p (is_failed p.transaction_state) _ _ (
            unless part kept.over_bpm p (is_unresolved p.transaction_state) _ _ (
              unless part kept.over_bpm p (not (in_transaction p.transaction_state)) _ _ (
                unless part kept.over_bpm p (has_entry p.transaction_state.original_pages id) _ _ (
                  unless part kept.over_bpm p (contains id p.transaction_state.new_page_ids) _ _ (
                    if-both (λ (x : Outcome disk_ops wal_ops). part x.1 ≡ part p)
                      (id == header_page_id)
                      (keep_header-kept p
                        (DatabaseHeader.encode_into p.db_header (replicate page_size 0)))
                      (keep_pinned-kept p id (BufferPoolManager.get_page p.bpm id)))))))))

    new_marked-kept :
        (id : PageId) (page_pin : PagePin) (o : Outcome disk_ops wal_ops)
        → part (new_marked disk_ops wal_ops id page_pin o).1 ≡ part o.1
    unfolding new_marked
    new_marked-kept id page_pin (err e, p) = kept.over_bpm p (release p.bpm page_pin).0
    new_marked-kept id page_pin (ok u, p) =
        let h = set_page_count p.db_header ((p.db_header.page_count + 1) % 2 ^ 64) in
        let t = p.transaction_state in
        kept.over_sets (set_header disk_ops wal_ops p h) (insert_id id t.dirty_page_ids)
          (insert_id id t.new_page_ids) t.original_pages
        ∙ kept.over_header p h

    new_cached-kept :
        (p : Pager Disk Log) (id : PageId) (r : Result PagePin × BufferPool)
        → part (new_cached disk_ops wal_ops p id r).1 ≡ part p
    unfolding new_cached
    new_cached-kept p id (err e, bpm) = kept.over_bpm p bpm
    new_cached-kept p id (ok page_pin, bpm) =
        let q = set_bpm disk_ops wal_ops p bpm in
        new_marked-kept id page_pin (mark_dirty disk_ops wal_ops q header_page_id)
        ∙ mark_dirty-kept q header_page_id
        ∙ kept.over_bpm p bpm

    pub new_page-kept : (p : Pager Disk Log) → part (new_page disk_ops wal_ops p).1 ≡ part p
    unfolding new_page
    new_page-kept p = unless part kept.over_bpm p p.closed _ _ (
        unless part kept.over_bpm p (not (in_transaction p.transaction_state)) _ _ (
          unless part kept.over_bpm p (is_failed p.transaction_state) _ _ (
            unless part kept.over_bpm p (is_unresolved p.transaction_state) _ _ (
              new_cached-kept p p.db_header.page_count
                (BufferPoolManager.cache_page p.bpm (blank_page p.db_header.page_count))))))

    restore_header-kept :
        (p : Pager Disk Log) (r : Result DatabaseHeader)
        → part (restore_header disk_ops wal_ops p r).1 ≡ part p
    unfolding restore_header
    restore_header-kept p (err e) = refl
    restore_header-kept p (ok header) = kept.over_header p header

    restore_original-kept :
        (p : Pager Disk Log) (id : ℕ) (page : Page)
        → part (restore_original disk_ops wal_ops p (id, page)).1 ≡ part p
    unfolding restore_original
    restore_original-kept p id page =
        if-both (λ (x : Outcome disk_ops wal_ops). part x.1 ≡ part p) (id == header_page_id)
          (restore_header-kept p (DatabaseHeader.decode page.contents))
          (with_bpm-kept part kept.over_bpm p (BufferPoolManager.restore_page p.bpm page))

    pub restore_originals-kept :
        (p : Pager Disk Log) (originals : Map Page)
        → part (restore_originals disk_ops wal_ops p originals).1 ≡ part p
    unfolding restore_originals
    restore_originals-kept p [] = refl
    restore_originals-kept p ((id, page) ∷ originals) =
        and_then-kept part kept.over_bpm (restore_original disk_ops wal_ops p (id, page)) _
          (λ q. restore_originals-kept q originals)
        ∙ restore_original-kept p id page
