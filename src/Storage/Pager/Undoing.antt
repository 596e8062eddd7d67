-- ===== src/Storage/Pager/Undoing.antt =====
-- Undoing the allocation of pages: the header after a rollback (src/storage/Pager.cpp).
use dan_db.Prelude.{
  ℕ, zero, ◌+◌, ◌%◌, ◌^◌, ◌≤◌, ◌<◌, Bool, true, false, not, ◌&&◌, Option, none, some, List, [], ◌∷◌,
  ◌++◌, ◌≡◌, refl, sym, ap, subst, ◌∙◌, inl, inr, Bool-cases, ◌==◌, ==→eq, if◌then◌else◌, if-both,
  if-split, replicate, length-replicate, arith,
}
use dan_db.Prelude.Map.{Map, lookup, insert, lookup-insert}
use dan_db.Prelude.Keys.{keys, insert-IsOnce, lookup-absent}
use dan_db.Prelude.Sets.{contains, IsOnce, contains-snoc}
use dan_db.Core.Status.{Result, ok, err, StatusCode, invalid_argument}
use dan_db.Core.Bytes.{page_size}
use dan_db.Platform.File.{FileOps}
use dan_db.Storage.Page.{
  new_page as blank_page, Page, PageId, header_page_id, invalid_page_id, is_valid,
}
use dan_db.Storage.DatabaseHeader
use dan_db.Storage.DatabaseHeader.{DatabaseHeader}
use dan_db.Storage.DatabaseHeader.Layout.{FitsWords, IsHeader, layout, encode_into-layout}
use dan_db.Storage.DatabaseHeader.Decoding.{decode-layout}
use dan_db.Transaction.TransactionState.{
  TransactionState, in_transaction, is_failed, is_unresolved, insert_id,
}
use dan_db.Buffer.BufferPoolManager
use dan_db.Buffer.BufferPoolManager.{PagePin, BufferPool, release, frame_at}
use dan_db.Storage.Pager.{
  Pager, Outcome, get_page, new_page, new_cached, new_marked, mark_dirty, keep_header, keep_pinned,
  keep_original, set_bpm, set_state, set_header, set_page_count, and_then, has_entry,
}
use dan_db.Storage.Pager.Transactions.{
  mark_transaction_failed, rollback_transaction, rollback_checked, restore_originals,
  restore_original, restore_header, with_bpm, discard_pages, clear_transaction,
}
use dan_db.Storage.Pager.Requests.{
  Request, begin, commit, rollback, fail, checkpoints, get, dirties, allocates, drops, run, run_all,
}
use dan_db.Storage.Pager.Lasting.{answer-same}
use dan_db.Storage.Pager.Keeping.{get_page-kept, discard_pages-kept}

some_page : {a b : Page} → some a ≡ some b → a ≡ b
some_page e = cc e

entry_lem : (o : Option Page) → (elim o [ none ↦ false | some page ↦ true ]) ≡ true → o ≡ none → ⊥
entry_lem none there e = cc there
entry_lem (some page) there e = cc e

no_entry_lem : (o : Option Page) → (elim o [ none ↦ false | some page ↦ true ]) ≡ false → o ≡ none
no_entry_lem none absent = refl
no_entry_lem (some page) absent = absurd (cc absent)

-- The requests between the begin of a transaction and its rollback.
unfoldable pub is_undone : Request → Bool
is_undone begin = false
is_undone commit = false
is_undone rollback = false
is_undone fail = true
is_undone checkpoints = false
is_undone (get id) = true
is_undone (dirties id) = true
is_undone allocates = true
is_undone (drops page_pin) = true

unfoldable pub all_undone : List Request → Bool
unfolding is_undone
all_undone [] = true
all_undone (r ∷ rs) = is_undone r && all_undone rs

module _ {Disk Log : Type 0} (disk_ops : FileOps Disk) (wal_ops : FileOps Log)
    (h : DatabaseHeader) where
  -- The header of the beginning is kept, once anything depends on it.
  record Restorable (header : DatabaseHeader) (t : TransactionState) : Type 0 where
    kept :
        (page : Page)
        → lookup 0 t.original_pages ≡ some page
        → DatabaseHeader.decode page.contents ≡ ok h
    same : lookup 0 t.original_pages ≡ none → header ≡ h
    once : IsOnce (keys t.original_pages)
    low : 1 ≤ header.page_count
    high : header.page_count < 2 ^ 64
    not_new : contains 0 t.new_page_ids ≡ false

  abbrev Undoes : Pager Disk Log → Type 0
  Undoes p = Restorable p.db_header p.transaction_state

  -- A marked header is kept.
  abbrev Marks : PageId → DatabaseHeader → Outcome disk_ops wal_ops → Type 0
  Marks id header o =
      Undoes o.1
      × (o.1.db_header ≡ header)
      × ((id == 0) ≡ true → o.0 ≡ ok tt → lookup 0 o.1.transaction_state.original_pages ≡ none → ⊥)

  error-Marks :
      (id : PageId) (e : StatusCode) (p : Pager Disk Log)
      → Undoes p
      → Marks id p.db_header (err e, p)
  error-Marks id e p u = (u, refl, λ zeroth k. absurd (cc k))

  module _ (fits : FitsWords h) (valid : IsHeader h) where
    keep_header-Marks :
        (p : Pager Disk Log)
        → Undoes p
        → lookup 0 p.transaction_state.original_pages ≡ none
        → Marks 0 p.db_header (
            keep_header disk_ops wal_ops p
              (DatabaseHeader.encode_into p.db_header (replicate page_size 0)))
    unfolding keep_header keep_original set_state
    keep_header-Marks p u free =
        let encoded : DatabaseHeader.encode_into p.db_header (replicate page_size 0)
            ≡ ok (layout h) =
          ap (λ x. DatabaseHeader.encode_into x (replicate page_size 0)) (u.same free)
          ∙ encode_into-layout h (replicate 4096 0) valid (length-replicate 4096 zero) in
        let t = p.transaction_state in
        let page : Page = record { id = 0; contents = layout h } in
        let found : lookup 0 (insert 0 page t.original_pages) ≡ some page =
          lookup-insert 0 0 page t.original_pages in
        rw encoded (
          record {
            kept = λ page' e.
                subst (λ (x : Page). DatabaseHeader.decode x.contents ≡ ok h)
                  (some_page (sym found ∙ e)) (decode-layout h fits valid);
            same = λ e. absurd (cc (e, found));
            once = insert-IsOnce 0 page t.original_pages u.once;
            low = u.low;
            high = u.high;
            not_new = u.not_new;
          },
          refl,
          λ zeroth done e. cc (e, found),
        )

    keep_pinned-Marks :
        (p : Pager Disk Log) (id : PageId) (r : Result PagePin × BufferPool)
        → (id == 0) ≡ false
        → Undoes p
        → Marks id p.db_header (keep_pinned disk_ops wal_ops p id r)
    unfolding keep_pinned keep_original set_state set_bpm
    keep_pinned-Marks p id (err e, bpm) other u = (
      record {
        kept = u.kept;
        same = u.same;
        once = u.once;
        low = u.low;
        high = u.high;
        not_new = u.not_new;
      },
      refl,
      λ zeroth. absurd (cc (zeroth, other)),
    )
    keep_pinned-Marks p id (ok page_pin, bpm) other u =
        let page = (frame_at bpm page_pin.frame_id).page in
        let originals = p.transaction_state.original_pages in
        let found : lookup 0 (insert id page originals) ≡ lookup 0 originals =
          lookup-insert id 0 page originals ∙ rw other refl in
        (
          record {
            kept = λ page' e. u.kept page' (sym found ∙ e);
            same = λ e. u.same (sym found ∙ e);
            once = insert-IsOnce id page originals u.once;
            low = u.low;
            high = u.high;
            not_new = u.not_new;
          },
          refl,
          λ zeroth. absurd (cc (zeroth, other)),
        )

    mark_dirty-Marks :
        (p : Pager Disk Log) (id : PageId)
        → Undoes p
        → Marks id p.db_header (mark_dirty disk_ops wal_ops p id)
    unfolding mark_dirty
    mark_dirty-Marks p id u =
        let t = p.transaction_state in
        let P = Marks id p.db_header in
        if-both P p.closed (error-Marks id _ p u) (
          if-both P (id == invalid_page_id) (error-Marks id _ p u) (
            if-both P (is_failed t) (error-Marks id _ p u) (
              if-both P (is_unresolved t) (error-Marks id _ p u) (
                if-both P (not (in_transaction t)) (error-Marks id _ p u) (
                  if-split P (has_entry t.original_pages id)
                    (λ there. (
                      u,
                      refl,
                      λ zeroth done e.
                          entry_lem (lookup id t.original_pages) there
                            (ap (λ k. lookup k t.original_pages) (==→eq id 0 zeroth) ∙ e),
                    ))
                    (λ absent.
                      if-split P (contains id t.new_page_ids)
                        (λ new. (
                          u,
                          refl,
                          λ zeroth. absurd (
                              cc (
                                new,
                                ap (λ k. contains k t.new_page_ids) (==→eq id 0 zeroth),
                                u.not_new,
                              )),
                        ))
                        (λ old.
                          if-split P (id == header_page_id)
                            (λ zeroth.
                              let free : lookup 0 t.original_pages ≡ none =
                                ap (λ k. lookup k t.original_pages) (sym (==→eq id 0 zeroth))
                                ∙ no_entry_lem (lookup id t.original_pages) absent in
                              let (undoes, header, marked) = keep_header-Marks p u free in
                              (undoes, header, λ again. marked refl))
                            (λ other.
                              keep_pinned-Marks p id (BufferPoolManager.get_page p.bpm id) other
                                u))))))))

    set_bpm-Undoes :
        (p : Pager Disk Log) (bpm : BufferPool) → Undoes p → Undoes (set_bpm disk_ops wal_ops p bpm)
    unfolding set_bpm
    set_bpm-Undoes p bpm u = record {
      kept = u.kept;
      same = u.same;
      once = u.once;
      low = u.low;
      high = u.high;
      not_new = u.not_new;
    }

    new_marked-Undoes :
        (id : PageId) (page_pin : PagePin) (header : DatabaseHeader) (o : Outcome disk_ops wal_ops)
        → Marks 0 header o
        → id ≡ header.page_count
        → 1 ≤ id
        → id < 18446744073709551615
        → Undoes (new_marked disk_ops wal_ops id page_pin o).1
    unfolding new_marked set_header set_state set_bpm set_page_count insert_id
    new_marked-Undoes id page_pin header (err e, p) (u, same, marked) count low high =
        set_bpm-Undoes p (release p.bpm page_pin).0 u
    new_marked-Undoes id page_pin header (ok v, p) (u, same, marked) count low high =
        let now : p.db_header.page_count ≡ id =
          ap (λ (x : DatabaseHeader). x.page_count) same ∙ sym count in
        record {
          kept = u.kept;
          same = λ e. absurd (marked refl refl e);
          once = u.once;
          low = (counted p.db_header.page_count (omega (arith, now, high))).0;
          high = (counted p.db_header.page_count (omega (arith, now, high))).1;
          not_new = inserted id p.transaction_state.new_page_ids low u.not_new;
        }
      where
        counted :
            (n : ℕ)
            → n < 18446744073709551615
            → (1 ≤ (n + 1) % 2 ^ 64) × ((n + 1) % 2 ^ 64 < 2 ^ 64)
        counted n small = (omega (arith, small), omega (arith, small))

        inserted :
            (k : ℕ) (ids : List ℕ)
            → 1 ≤ k
            → contains 0 ids ≡ false
            → contains 0 (if contains k ids then ids else ids ++ (k ∷ [])) ≡ false
        inserted k ids positive absent = ground (arith, positive, absent, contains-snoc 0 k ids)

    new_cached-Undoes :
        (p : Pager Disk Log) (r : Result PagePin × BufferPool)
        → Undoes p
        → p.db_header.page_count < 18446744073709551615
        → Undoes (new_cached disk_ops wal_ops p p.db_header.page_count r).1
    unfolding new_cached set_bpm
    new_cached-Undoes p (err e, bpm) u high = set_bpm-Undoes p bpm u
    new_cached-Undoes p (ok page_pin, bpm) u high =
        let q = set_bpm disk_ops wal_ops p bpm in
        new_marked-Undoes p.db_header.page_count page_pin p.db_header
          (mark_dirty disk_ops wal_ops q header_page_id)
          (mark_dirty-Marks q header_page_id (set_bpm-Undoes p bpm u)) refl u.low high

    -- A page cannot be cached under the number that stands for none.
    new_page-Undoes : (p : Pager Disk Log) → Undoes p → Undoes (new_page disk_ops wal_ops p).1
    unfolding new_page blank_page new_cached BufferPoolManager.cache_page set_bpm
    new_page-Undoes p u =
        let t = p.transaction_state in
        let P = λ (x : Result PagePin × Pager Disk Log). Undoes x.1 in
        let n : ℕ = p.db_header.page_count in
        if-both P p.closed u (
          if-both P (not (in_transaction t)) u (
            if-both P (is_failed t) u (
              if-both P (is_unresolved t) u (elim (Bool-cases (is_valid n)) [
                | inl valid_id ↦
                    new_cached-Undoes p (BufferPoolManager.cache_page p.bpm (blank_page n)) u
                      (ground (arith, valid_id, u.high))
                | inr none_left ↦
                    let refused : BufferPoolManager.cache_page p.bpm (blank_page n)
                        ≡ (err invalid_argument, p.bpm) =
                      rw none_left refl in
                    subst (λ r. Undoes (new_cached disk_ops wal_ops p n r).1) (sym refused)
                      (set_bpm-Undoes p p.bpm u)
              ]))))

    get_page-Undoes :
        (p : Pager Disk Log) (id : PageId) → Undoes p → Undoes (get_page disk_ops wal_ops p id).1
    unfolding set_bpm
    get_page-Undoes p id u =
        subst (λ (x : DatabaseHeader × TransactionState). Restorable x.0 x.1)
          (sym (
            get_page-kept disk_ops wal_ops (λ q. (q.db_header, q.transaction_state)) (λ q bpm. refl)
              p id))
          u

    -- A failing transaction keeps what it has kept.
    fail-Undoes :
        (p : Pager Disk Log) → Undoes p → Undoes (mark_transaction_failed disk_ops wal_ops p).1
    unfolding mark_transaction_failed set_state
    fail-Undoes p u =
        let t = p.transaction_state in
        let P = λ (x : Outcome disk_ops wal_ops). Undoes x.1 in
        if-both P p.closed u (
          if-both P (not (in_transaction t)) u (
            if-both P (is_unresolved t) u (record {
              kept = u.kept;
              same = u.same;
              once = u.once;
              low = u.low;
              high = u.high;
              not_new = u.not_new;
            })))

    run-Undoes :
        (r : Request) (p : Pager Disk Log)
        → is_undone r ≡ true
        → Undoes p
        → Undoes (run disk_ops wal_ops r p).1
    unfolding run is_undone
    run-Undoes begin p k u = absurd (cc k)
    run-Undoes commit p k u = absurd (cc k)
    run-Undoes rollback p k u = absurd (cc k)
    run-Undoes checkpoints p k u = absurd (cc k)
    run-Undoes fail p k u = fail-Undoes p u
    run-Undoes (get id) p k u =
        subst Undoes (sym (answer-same (get_page disk_ops wal_ops p id))) (get_page-Undoes p id u)
    run-Undoes (dirties id) p k u = (mark_dirty-Marks p id u).0
    run-Undoes allocates p k u =
        subst Undoes (sym (answer-same (new_page disk_ops wal_ops p))) (new_page-Undoes p u)
    run-Undoes (drops page_pin) p k u = set_bpm-Undoes p (release p.bpm page_pin).0 u

    run_all-Undoes :
        (rs : List Request) (p : Pager Disk Log)
        → all_undone rs ≡ true
        → Undoes p
        → Undoes (run_all disk_ops wal_ops rs p)
    unfolding run_all all_undone
    run_all-Undoes [] p k u = u
    run_all-Undoes (r ∷ rs) p k u =
        run_all-Undoes rs (run disk_ops wal_ops r p).1 (ground (arith, k))
          (run-Undoes r p (ground (arith, k)) u)

  then_header :
      (o : Outcome disk_ops wal_ops) (f : Pager Disk Log → Outcome disk_ops wal_ops)
      → (and_then disk_ops wal_ops o f).0 ≡ ok tt
      → ((q : Pager Disk Log) → o ≡ (ok tt, q) → (f q).0 ≡ ok tt → (f q).1.db_header ≡ h)
      → (and_then disk_ops wal_ops o f).1.db_header ≡ h
  unfolding and_then
  then_header (err e, p) f done next = absurd (cc done)
  then_header (ok u, p) f done next = next p refl done

  header_of_same :
      (o : Outcome disk_ops wal_ops) (q : Pager Disk Log) (header : DatabaseHeader)
      → o ≡ (ok tt, q)
      → o.1.db_header ≡ header
      → q.db_header ≡ header
  header_of_same o q header e same =
      ap (λ (x : Outcome disk_ops wal_ops). x.1.db_header) (sym e) ∙ same

  with_bpm-header :
      (p : Pager Disk Log) (r : Result (Unit {0}) × BufferPool)
      → (with_bpm disk_ops wal_ops p r).1.db_header ≡ p.db_header
  unfolding with_bpm set_bpm
  with_bpm-header p (r, bpm) = refl

  restore_original-header :
      (p : Pager Disk Log) (id : PageId) (page : Page)
      → ((id == 0) ≡ true → DatabaseHeader.decode page.contents ≡ ok h)
      → (restore_original disk_ops wal_ops p (id, page)).1.db_header
        ≡ (if id == 0 then h else p.db_header)
  unfolding restore_original restore_header set_header
  restore_original-header p id page kept = elim (Bool-cases (id == 0)) [
    | inl zeroth ↦ rw (zeroth, kept zeroth) refl
    | inr other ↦ rw other (with_bpm-header p (BufferPoolManager.restore_page p.bpm page))
  ]

  -- The loop of a rollback ends with the header that was kept.
  restore_originals-header :
      (p : Pager Disk Log) (m : Map Page)
      → IsOnce (keys m)
      → ((page : Page) → lookup 0 m ≡ some page → DatabaseHeader.decode page.contents ≡ ok h)
      → (lookup 0 m ≡ none → p.db_header ≡ h)
      → (restore_originals disk_ops wal_ops p m).0 ≡ ok tt
      → (restore_originals disk_ops wal_ops p m).1.db_header ≡ h
  unfolding restore_originals keys IsOnce lookup
  restore_originals-header p [] once kept same done = same refl
  restore_originals-header p ((id, page) ∷ m) once kept same done =
      let first = restore_original disk_ops wal_ops p (id, page) in
      let header = restore_original-header p id page (λ zeroth. kept page (rw zeroth refl)) in
      then_header first (λ q. restore_originals disk_ops wal_ops q m) done
        (λ q e done'.
          let now : q.db_header ≡ (if id == 0 then h else p.db_header) =
            header_of_same first q _ e header in
          elim (Bool-cases (id == 0)) [
            | inl zeroth ↦
                let absent : lookup 0 m ≡ none =
                  lookup-absent 0 m
                    (ap (λ k. contains k (keys m)) (sym (==→eq id 0 zeroth)) ∙ once.0) in
                restore_originals-header q m once.1 (λ page' found. absurd (cc (found, absent)))
                  (λ gone. now ∙ rw zeroth refl) done'
            | inr other ↦
                restore_originals-header q m once.1 (λ page' found. kept page' (rw other found))
                  (λ gone. now ∙ rw other (same (rw other gone))) done'
          ])

  -- A rollback that succeeds brings the header of the beginning back.
  Returns : Outcome disk_ops wal_ops → Type 0
  Returns o = o.0 ≡ ok tt → o.1.db_header ≡ h

  rollback_checked-Returns :
      (p : Pager Disk Log) (r : Result (Unit {0}))
      → Undoes p
      → Returns (rollback_checked disk_ops wal_ops p r)
  unfolding rollback_checked clear_transaction set_state set_bpm Returns
  rollback_checked-Returns p (err e) u done = absurd (cc done)
  rollback_checked-Returns p (ok v) u done =
      let t = p.transaction_state in
      let restored = restore_originals disk_ops wal_ops p t.original_pages in
      then_header restored _ done (λ q e done'.
        let back : q.db_header ≡ h = header_of_same restored q h e (
          restore_originals-header p t.original_pages u.once u.kept u.same
            (ap (λ (x : Outcome disk_ops wal_ops). x.0) e)) in
        let discarded = discard_pages disk_ops wal_ops q t.new_page_ids in
        then_header discarded _ done' (λ q' e' done''. header_of_same discarded q' h e' (
          discard_pages-kept disk_ops wal_ops (λ x. x.db_header) (λ x bpm. refl) q t.new_page_ids
          ∙ back)))

  rollback-Returns :
      (p : Pager Disk Log) → Undoes p → Returns (rollback_transaction disk_ops wal_ops p)
  unfolding rollback_transaction Returns
  rollback-Returns p u =
      let t = p.transaction_state in
      let P = Returns in
      if-both P p.closed refused (
        if-both P (not (in_transaction t)) refused
          (if-both P (is_unresolved t) refused (rollback_checked-Returns p _ u)))
    where
      refused : {e : StatusCode} → Returns (err e, p)
      refused k = absurd (cc k)

-- A rollback undoes the allocation of pages: take a pager with a valid header of 64-bit numbers, whose transaction has changed
-- nothing yet. After any sequence of requests that read, mark or allocate pages, end handles or make the transaction fail,
-- successful or not, a rollback that succeeds brings back the header that the pager had, with its number of pages.
pub rollback-run_all :
    {Disk Log : Type 0} (disk_ops : FileOps Disk) (wal_ops : FileOps Log) (p : Pager Disk Log)
    (rs : List Request)
    → FitsWords p.db_header
    → IsHeader p.db_header
    → 1 ≤ p.db_header.page_count
    → p.transaction_state.original_pages ≡ []
    → p.transaction_state.new_page_ids ≡ []
    → all_undone rs ≡ true
    → (rollback_transaction disk_ops wal_ops (run_all disk_ops wal_ops rs p)).0 ≡ ok tt
    → (rollback_transaction disk_ops wal_ops (run_all disk_ops wal_ops rs p)).1.db_header
      ≡ p.db_header
unfolding lookup keys IsOnce contains Returns
rollback-run_all disk_ops wal_ops p rs fits valid low no_originals no_new undone done =
    let u : Undoes disk_ops wal_ops p.db_header p = record {
      kept = λ page found. absurd (cc (found, ap (lookup 0) no_originals));
      same = λ gone. refl;
      once = rw no_originals tt;
      low = low;
      high = fits.page_count;
      not_new = ap (contains 0) no_new;
    } in
    rollback-Returns disk_ops wal_ops p.db_header (run_all disk_ops wal_ops rs p)
      (run_all-Undoes disk_ops wal_ops p.db_header fits valid rs p undone u) done
