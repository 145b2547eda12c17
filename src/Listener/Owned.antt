-- ===== src/Listener/Owned.antt =====
-- The jobs of the acceptor's workers own the bytes that they point to: nothing that the loop of
-- crawler/net/discovery/listener.go writes later reaches them.
use node_util.Base.{
  ℕ, zero, suc, ◌<◌, ◌≡◌, refl, ap, List, [], ◌∷◌, ◌++◌, arith, length, get_elem?, set, take,
  length-append, length-set, get_elem?-append, get_elem?-set_ne, get_elem?-append_length, All,
  All-map,
}
use node_util.Listener.{Job, Worker, idle, gone, busy, Stage, sending, bytes_of, contents, copy_job}

-- Its cell is not the buffer of the loop.
pub record IsOwn (heap : List (List ℕ)) (j : Job) : Type 0 where
  pub positive : 0 < j.cell
  pub inside : j.cell < length heap

abbrev pub IsOwnedBy : List (List ℕ) → Worker → Type 0
IsOwnedBy heap (busy j) = IsOwn heap j
IsOwnedBy heap _ = Unit

abbrev pub IsOwnedAt : List (List ℕ) → Stage → Type 0
IsOwnedAt heap (sending j) = IsOwn heap j
IsOwnedAt heap _ = Unit

-- What owned jobs hold is the same in both heaps.
pub record Extends (heap more : List (List ℕ)) : Type 0 where
  pub keeps : (j : Job) → IsOwn heap j → IsOwn more j
  pub same : (j : Job) → IsOwn heap j → contents more j ≡ contents heap j

-- The next packet overwrites the buffer.
pub set-Extends : (heap : List (List ℕ)) (buf : List ℕ) → Extends heap (set heap 0 buf)
unfolding contents
set-Extends heap buf = record {
  keeps = λ j own. record {
    positive = own.positive;
    inside = omega (arith, own.inside, length-set heap 0 buf);
  };
  same = λ j own.
      rw (get_elem?-set_ne heap 0 j.cell buf λ e. absurd (omega (arith, own.positive, e))) refl;
}

-- A new cell is allocated.
pub append-Extends : (heap : List (List ℕ)) (cell : List ℕ) → Extends heap (heap ++ cell ∷ [])
unfolding contents
append-Extends heap cell = record {
  keeps = λ j own. record {
    positive = own.positive;
    inside = omega (arith, own.inside, length-append heap (cell ∷ []));
  };
  same = λ j own. rw (get_elem?-append heap (cell ∷ []) j.cell own.inside) refl;
}

-- The job of a copy owns its cell, and holds the bytes that were copied.
pub copy_job-IsOwn :
    (heap : List (List ℕ)) (size from : ℕ)
    → 0 < length heap
    → IsOwn (copy_job heap size from).0 (copy_job heap size from).1
unfolding copy_job
copy_job-IsOwn heap size from some_cell = record {
  positive = some_cell;
  inside = omega (arith, length-append heap (take size (bytes_of (get_elem? heap 0)) ∷ []));
}

take_idem {ℓ} : {A : Type ℓ} (n : ℕ) (xs : List A) → take n (take n xs) ≡ take n xs
take_idem zero xs = refl
take_idem (suc n) [] = refl
take_idem (suc n) (x ∷ xs) = ap (◌∷◌ x) (take_idem n xs)

pub contents-copy_job :
    (heap : List (List ℕ)) (size from : ℕ)
    → contents (copy_job heap size from).0 (copy_job heap size from).1
      ≡ contents heap (record { cell = 0; size = size; from = from })
unfolding copy_job contents
contents-copy_job heap size from =
    rw
      (
        get_elem?-append_length heap (take size (bytes_of (get_elem? heap 0))),
        take_idem size (bytes_of (get_elem? heap 0)),
      )
      refl

pub IsOwnedBy-Extends :
    (heap more : List (List ℕ))
    → Extends heap more
    → (w : Worker) → IsOwnedBy heap w
    → IsOwnedBy more w
IsOwnedBy-Extends heap more ext idle own = tt
IsOwnedBy-Extends heap more ext gone own = tt
IsOwnedBy-Extends heap more ext (busy j) own = ext.keeps j own

pub workers-Extends :
    (heap more : List (List ℕ)) (ws : List Worker)
    → Extends heap more
    → All (IsOwnedBy heap) ws
    → All (IsOwnedBy more) ws
workers-Extends heap more ws ext = All-map (IsOwnedBy-Extends heap more ext) ws
