-- ===== src/Node/Cache/Stored.antt =====
-- crates/resurrect-node/src/cache.rs: what is stored, and when nothing is.
use rbp.Prelude.{
  ◌≡◌, ◌⊎◌, refl, inl, inr, some, List, [], ◌∷◌, Result, ok, err, ◌>>=◌, nat_eq, arith, All, length,
  Result-cases,
}
use rbp.Core.Namespace.{Namespace}
use rbp.Core.PeerRecord.{PeerCandidate}
use rbp.Node.Cache.{CacheError, Row}
use rbp.Node.Cache.Table.{Sqlite, upsert, store_rows, store}
use rbp.Node.Cache.Upsert.{find, FindsNoOlder, upsert-FindsNoOlder, upsert-Finds, NoOlder-refl}
use rbp.Node.Cache.Rows.{Fits, plain_row, row_of-cases}

module _ (sqlite : Sqlite) where
  -- storing the candidates on what may have failed before
  abbrev store_rows_from :
      Namespace
      → List PeerCandidate
      → List Row
      → Result Row CacheError
      → Result (List Row) CacheError
  store_rows_from namespace cs rows converted = do
    row ← converted
    executed ← sqlite.execute (length cs)
    store_rows sqlite namespace cs (upsert row rows)

  -- no `execute` fails
  abbrev pub Executes : List PeerCandidate → Type 0
  Executes [] = Unit
  Executes (c ∷ cs) = (sqlite.execute (length cs) ≡ ok tt) × Executes cs

  -- the rows after an upsert of each candidate in turn
  abbrev pub upsert_all : Namespace → List PeerCandidate → List Row → List Row
  upsert_all namespace [] rows = rows
  upsert_all namespace (c ∷ cs) rows = upsert_all namespace cs (upsert (plain_row namespace c) rows)

  abbrev StoresAll : Namespace → List PeerCandidate → List Row → Type 0
  StoresAll namespace cs rows =
      (All Fits cs
        × Executes cs
        × (store_rows sqlite namespace cs rows ≡ ok (upsert_all namespace cs rows)))
      ⊎ ((¬ (All Fits cs × Executes cs))
          × (e : CacheError) × (store_rows sqlite namespace cs rows ≡ err e))

  store_rows-cases :
      (namespace : Namespace) (cs : List PeerCandidate) (rows : List Row)
      → StoresAll namespace cs rows
  unfolding store_rows
  store_rows-cases namespace [] rows = inl (tt, tt, refl)
  store_rows-cases namespace (c ∷ cs) rows = elim (row_of-cases namespace c) [
    | inr (over, e, failed) ↦ inr (λ f. over f.0.0, e, rw failed refl)
    | inl (fits, converted) ↦ elim (Result-cases (sqlite.execute (length cs))) [
      | inr (e, failed) ↦
          inr (λ f. absurd (ground (arith, failed, f.1.0)), e, rw (converted, failed) refl)
      | inl (u, executed) ↦
          elim (store_rows-cases namespace cs (upsert (plain_row namespace c) rows)) [
            | inr (over, e, failed) ↦
                inr (λ f. over (f.0.1, f.1.1), e, rw (converted, executed) failed)
            | inl (rest, ran, stored) ↦
                inl ((fits, rest), (executed, ran), rw (converted, executed) stored)
          ]
    ]
  ]

  -- nothing fails and every number of every candidate fits
  abbrev pub Succeeds : List PeerCandidate → Type 0
  Succeeds cs =
      (sqlite.opened ≡ ok tt)
      × (sqlite.transaction ≡ ok tt)
      × All Fits cs
      × Executes cs
      × (sqlite.commit ≡ ok tt)

  -- Storing succeeds exactly if every number of every candidate is at most 2^63 - 1 and SQLite fails
  -- at no call: opening, the transaction, the statement of each candidate, the commit. Then every
  -- candidate was upserted in its order. Otherwise an error is returned and the table is left as it
  -- was, whichever candidates came before the failure.
  pub store-atomic :
      (namespace : Namespace) (cs : List PeerCandidate) (rows : List Row)
      → (Succeeds cs × (store sqlite namespace cs rows ≡ (upsert_all namespace cs rows, ok tt)))
        ⊎ ((¬ Succeeds cs)
            × ((store sqlite namespace cs rows).0 ≡ rows)
            × (e : CacheError) × ((store sqlite namespace cs rows).1 ≡ err e))
  unfolding store
  store-atomic namespace cs rows = elim (Result-cases sqlite.opened) [
    | inr (e, failed) ↦
        inr (λ s. absurd (ground (arith, failed, s.0)), rw failed refl, e, rw failed refl)
    | inl (u, opened) ↦ elim (Result-cases sqlite.transaction) [
      | inr (e, failed) ↦ inr (
        λ s. absurd (ground (arith, failed, s.1)),
        rw (opened, failed) refl,
        e,
        rw (opened, failed) refl,
      )
      | inl (v, began) ↦ elim (store_rows-cases namespace cs rows) [
        | inr (over, e, failed) ↦ inr (
          λ s. over (s.2, s.3),
          rw (opened, began, failed) refl,
          e,
          rw (opened, began, failed) refl,
        )
        | inl (fits, ran, stored) ↦ elim (Result-cases sqlite.commit) [
          | inr (e, failed) ↦ inr (
            λ s. absurd (ground (arith, failed, s.4)),
            rw (opened, began, stored, failed) refl,
            e,
            rw (opened, began, stored, failed) refl,
          )
          | inl (w, done) ↦
              inl ((opened, began, fits, ran, done), rw (opened, began, stored, done) refl)
        ]
      ]
    ]
  ]

  upsert_all-FindsNoOlder :
      (namespace : Namespace) (cs : List PeerCandidate) (rows : List Row) (k s : Row)
      → FindsNoOlder k s rows
      → FindsNoOlder k s (upsert_all namespace cs rows)
  upsert_all-FindsNoOlder namespace [] rows k s v = v
  upsert_all-FindsNoOlder namespace (c ∷ cs) rows k s v =
      upsert_all-FindsNoOlder namespace cs (upsert (plain_row namespace c) rows) k s
        (upsert-FindsNoOlder k s (plain_row namespace c) rows v)

  upsert_all-Finds :
      (namespace : Namespace) (cs : List PeerCandidate) (rows : List Row)
      → All
          (λ c.
            FindsNoOlder
              (plain_row namespace c)
              (plain_row namespace c)
              (upsert_all namespace cs rows))
          cs
  upsert_all-Finds namespace [] rows = tt
  upsert_all-Finds namespace (c ∷ cs) rows =
      let r = plain_row namespace c in
      (
        upsert_all-FindsNoOlder namespace cs (upsert r rows) r r (upsert-Finds r rows),
        upsert_all-Finds namespace cs (upsert r rows),
      )

  -- Whether storing succeeds or fails, a row that was in the table is still found under its key,
  -- with a sequence number that is not lower.
  pub store-FindsNoOlder :
      (namespace : Namespace) (cs : List PeerCandidate) (rows : List Row) (k s : Row)
      → find k rows ≡ some s
      → FindsNoOlder k s (store sqlite namespace cs rows).0
  store-FindsNoOlder namespace cs rows k s found = elim (store-atomic namespace cs rows) [
    | inl (went, stored) ↦
        rw stored (upsert_all-FindsNoOlder namespace cs rows k s (s, found, NoOlder-refl s))
    | inr (failed, same, e, error) ↦ rw same (s, found, NoOlder-refl s)
  ]

  -- After a successful store each candidate has a row under its key, with a sequence number that is
  -- not lower than its own.
  pub store-Finds :
      (namespace : Namespace) (cs : List PeerCandidate) (rows : List Row)
      → Succeeds cs
      → All
          (λ c.
            FindsNoOlder
              (plain_row namespace c)
              (plain_row namespace c)
              (store sqlite namespace cs rows).0)
          cs
  store-Finds namespace cs rows went = elim (store-atomic namespace cs rows) [
    | inl (went', stored) ↦ rw stored (upsert_all-Finds namespace cs rows)
    | inr (failed, same, e, error) ↦ absurd (failed went)
  ]
