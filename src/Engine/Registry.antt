-- ===== src/Engine/Registry.antt =====
-- src/engine.cpp: the map of sockets, as doAdd and doRemove change it.
use epoller.Prelude.{
  ℕ, ◌+◌, ◌%◌, ◌≤◌, ◌<◌, ◌≡◌, ◌≢◌, refl, sym, ◌∙◌, inl, inr, Bool, false, List, [], ◌∷◌, ◌++◌, ◌==◌,
  if◌then◌else◌, none, some, count_if, size_mod, arith, Option-cases,
}
use epoller.Engine.Defs.{Engine, add_fd, find, erase, do_add}

-- Is the entry at this id?
abbrev pub at_id : ℕ → ℕ × ℕ → Bool
at_id id (k, sock) = k == id

-- A map of sockets: an id has one entry at most, an entry's socket has its id, and the ids are those
-- that have been given out.
pub record Registered (e : Engine) : Type 0 where
  pub once : (id : ℕ) → count_if (at_id id) e.event_hash ≤ 1
  pub ids : (id sock : ℕ) → find id e.event_hash ≡ some sock → e.ev_id sock ≡ id
  pub given : (id sock : ℕ) → find id e.event_hash ≡ some sock → (0 < id) × (id ≤ e.ev_counter)

find-none : (id : ℕ) (hash : List (ℕ × ℕ)) → count_if (at_id id) hash ≡ 0 → find id hash ≡ none
unfolding find
find-none id [] h = refl
find-none id ((k, sock) ∷ hash) h = ground (arith, find-none id hash)

count-none : (id : ℕ) (hash : List (ℕ × ℕ)) → find id hash ≡ none → count_if (at_id id) hash ≡ 0
unfolding find
count-none id [] h = refl
count-none id ((k, sock) ∷ hash) h = ground (arith, count-none id hash)

pub find-erase :
    (id : ℕ) (hash : List (ℕ × ℕ)) → count_if (at_id id) hash ≤ 1 → find id (erase id hash) ≡ none
unfolding find erase
find-erase id [] h = refl
find-erase id ((k, sock) ∷ hash) h = ground (arith, find-erase id hash, find-none id hash)

pub find-erase_other :
    (id id' : ℕ) (hash : List (ℕ × ℕ)) → id ≢ id' → find id (erase id' hash) ≡ find id hash
unfolding find erase
find-erase_other id id' [] h = refl
find-erase_other id id' ((k, sock) ∷ hash) h = ground (arith, find-erase_other id id' hash)

pub count-erase :
    (id id' : ℕ) (hash : List (ℕ × ℕ))
    → count_if (at_id id) (erase id' hash) ≤ count_if (at_id id) hash
unfolding erase
count-erase id id' [] = omega arith
count-erase id id' ((k, sock) ∷ hash) = ground (arith, count-erase id id' hash)

-- What is found after an id has been erased was there before, at another id.
pub find-erase-some :
    (id id' sock : ℕ) (hash : List (ℕ × ℕ))
    → count_if (at_id id') hash ≤ 1
    → find id (erase id' hash) ≡ some sock
    → (id ≢ id') × (find id hash ≡ some sock)
find-erase-some id id' sock hash h e =
    let apart : id ≢ id' = λ p. ground (arith, p, find-erase id hash) in
    (apart, sym (find-erase_other id id' hash apart) ∙ e)

-- A fresh id is not in the map.
fresh : (e : Engine) → Registered e → find (e.ev_counter + 1) e.event_hash ≡ none
fresh e r = elim (Option-cases (find (e.ev_counter + 1) e.event_hash)) [
  | inl absent ↦ absent
  | inr (sock, found) ↦ absurd (omega (arith, (r.given (e.ev_counter + 1) sock found).1))
]

-- The socket is not in the map.
abbrev pub IsNew : ℕ → Engine → Type 0
IsNew what e = (id : ℕ) → find id e.event_hash ≢ some what

-- The engine that doAdd leaves.
abbrev pub added : Bool → ℕ → Engine → Engine
added epoll_out what e =
    let id = e.ev_counter + 1 in
    record e {
      ev_counter = id;
      ev_id = λ sock. if sock == what then id else e.ev_id sock;
      event_hash = (id, what) ∷ e.event_hash;
      controls = e.controls ++ add_fd what epoll_out ∷ [];
    }

added-Registered :
    (epoll_out : Bool) (what : ℕ) (e : Engine)
    → Registered e
    → IsNew what e
    → Registered (added epoll_out what e)
unfolding find
added-Registered epoll_out what e r new = record {
  once = λ id. ground (arith, r.once id, count-none id e.event_hash, fresh e r);
  ids = λ id sock h. ground (arith, r.ids id sock, new id);
  given = λ id sock h. ground (arith, r.given id sock);
}

-- A socket that is not in the map is added under an id that no socket in the map has, other than the
-- timer's: doAdd's assertions hold, and what was in the map before can be found as before.
pub do_add-Registered :
    (epoll_out : Bool) (what : ℕ) (e : Engine)
    → Registered e
    → e.stopping ≡ false
    → e.ev_counter + 1 < size_mod
    → IsNew what e
    → (e' : Engine) × (do_add epoll_out what e ≡ some e')
      × Registered e'
      × (find (e'.ev_id what) e'.event_hash ≡ some what)
      × (find (e'.ev_id what) e.event_hash ≡ none)
      × ((id : ℕ) → id ≢ e'.ev_id what → find id e'.event_hash ≡ find id e.event_hash)
unfolding do_add find
do_add-Registered epoll_out what e r going room new =
    let id : (e.ev_counter + 1) % size_mod ≡ e.ev_counter + 1 = omega (arith, room) in
    (
      added epoll_out what e,
      ground (arith, fresh e r, id),
      added-Registered epoll_out what e r new,
      ground arith,
      ground (arith, fresh e r),
      λ k h. ground arith,
    )
