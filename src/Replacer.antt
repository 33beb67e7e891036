-- ===== src/Replacer.antt =====
-- src/replacer: the LRU replacer. `LRUlist_` is the list of its nodes, front first, each with the
-- identity of the node and the frame that it holds; an iterator is such an identity. `LRUhash_`
-- maps a frame to the node that holds it. New nodes take the next identity.
mod Nodes
pub mod Laws
use grmdb.Base.{
  ℕ, suc, List, [], ◌∷◌, Option, none, some, ite, ℕ_discrete, lookup, erase, put, length,
}

pub record LruReplacer : Type 0 where
  pub lru_list : List (ℕ × ℕ)
  pub lru_hash : List (ℕ × ℕ)
  pub max_size : ℕ
  pub next_node : ℕ

unfoldable pub init : ℕ → LruReplacer
init num_pages = record { lru_list = []; lru_hash = []; max_size = num_pages; next_node = 0 }

-- `LRUlist_.back()`
unfoldable pub back : List (ℕ × ℕ) → Option (ℕ × ℕ)
back [] = none
back (e ∷ []) = some e
back (e ∷ e' ∷ l) = back (e' ∷ l)

-- `LRUlist_.pop_back()`
unfoldable pub pop_back : List (ℕ × ℕ) → List (ℕ × ℕ)
pop_back [] = []
pop_back (e ∷ []) = []
pop_back (e ∷ e' ∷ l) = e ∷ pop_back (e' ∷ l)

-- `LRUlist_.erase(it)`
unfoldable pub erase_node : ℕ → List (ℕ × ℕ) → List (ℕ × ℕ)
erase_node node [] = []
erase_node node (e ∷ l) = ite (ℕ_discrete e.0 node) l (e ∷ erase_node node l)

-- `none` is the result false.
unfoldable pub victim : LruReplacer → Option ℕ × LruReplacer
unfolding back pop_back
victim r = elim (back r.lru_list) [
  | none ↦ (none, r)
  | some (node, frame_id) ↦ (
    some frame_id,
    record r { lru_list = pop_back r.lru_list; lru_hash = erase ℕ_discrete frame_id r.lru_hash },
  )
]

unfoldable pub pin : LruReplacer → ℕ → LruReplacer
unfolding erase_node
pin r frame_id = elim (lookup ℕ_discrete frame_id r.lru_hash) [
  | none ↦ r
  | some node ↦ record r {
    lru_list = erase_node node r.lru_list;
    lru_hash = erase ℕ_discrete frame_id r.lru_hash;
  }
]

unfoldable pub unpin : LruReplacer → ℕ → LruReplacer
unpin r frame_id = elim (lookup ℕ_discrete frame_id r.lru_hash) [
  | none ↦ record r {
    lru_list = (r.next_node, frame_id) ∷ r.lru_list;
    lru_hash = put ℕ_discrete frame_id r.next_node r.lru_hash;
    next_node = suc r.next_node;
  }
  | some node ↦ r
]

unfoldable pub size : LruReplacer → ℕ
size r = length r.lru_list
