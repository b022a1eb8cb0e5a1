-- ===== src/Domino/Remove.antt =====
-- `rmEv_` and `pureRmLink_` of domino/Domino.cpp, and `rmEvOK` of domino/RmEvDom.hpp.
pub mod Peers
pub mod Cut
pub mod Wire
pub mod Laws
pub mod End
use domino_library.Prelude.{
  ℕ, Bool, true, false, String, List, [], ◌∷◌, ◌++◌, Option, none, some, if◌then◌else◌, ◌>>=◌, ◌==◌,
  ltb, length, set, get_or, erase, string_eq,
}
use domino_library.Domino.Links.{EvLinks, Branches, find_peer_evs}
use domino_library.Domino.Marks.{pure_set_state_ok}
use domino_library.Domino.State.{Domino, get_event_by}
use domino_library.Domino.Ops.{Done, deduce_and_effect}

-- The last of the items `x ∷ xs`, and those before it
unfoldable pub last_of : ℕ → List ℕ → ℕ
last_of x [] = x
last_of x (y ∷ ys) = last_of y ys

unfoldable pub but_last : ℕ → List ℕ → List ℕ
but_last x [] = []
but_last x (y ∷ ys) = x ∷ but_last y ys

-- `*pos = peers.back(); peers.pop_back();` where `pos` is just before the list
unfoldable pub move_last : List ℕ → List ℕ
unfolding last_of but_last
move_last [] = []
move_last (x ∷ xs) = last_of x xs ∷ but_last x xs

-- swap-erase, if `ev` is there
unfoldable pub swap_erase : ℕ → List ℕ → List ℕ
unfolding move_last
swap_erase ev [] = []
swap_erase ev (x ∷ xs) = if ev == x then move_last xs else x ∷ swap_erase ev xs

-- A list of one peer is cleared without a look at the peer.
unfoldable pub drop_peer : ℕ → List ℕ → List ℕ
unfolding swap_erase
drop_peer ev [] = []
drop_peer ev (x ∷ []) = []
drop_peer ev (x ∷ y ∷ ys) = swap_erase ev (x ∷ y ∷ ys)

unfoldable pub unlink : ℕ → EvLinks → ℕ → EvLinks
unfolding drop_peer
unlink ev links peer =
    if ltb peer (length links)
    then set links peer (drop_peer ev (find_peer_evs peer links))
    else links

unfoldable pub unlink_each : ℕ → EvLinks → List ℕ → EvLinks
unfolding unlink
unlink_each ev links [] = links
unlink_each ev links (peer ∷ peers) = unlink_each ev (unlink ev links peer) peers

-- The own links, cleared, and the neighbours' links
unfoldable pub pure_rm_link : ℕ → EvLinks → EvLinks → EvLinks × EvLinks
unfolding unlink_each
pure_rm_link ev mine theirs = (
  if ltb ev (length mine) then set mine ev [] else mine,
  unlink_each ev theirs (find_peer_evs ev mine),
)

-- The four calls of `pureRmLink_`
unfoldable pub rm_links : ℕ → Domino → Domino
unfolding pure_rm_link
rm_links ev d =
    let (prev_t, next_t) = pure_rm_link ev d.prev.on_true d.next.on_true in
    let (prev_f, next_f) = pure_rm_link ev d.prev.on_false d.next.on_false in
    let (next_t', prev_t') = pure_rm_link ev next_t prev_t in
    let (next_f', prev_f') = pure_rm_link ev next_f prev_f in
    record d {
      prev = record { on_true = prev_t'; on_false = prev_f' };
      next = record { on_true = next_t'; on_false = next_f' };
    }

-- The event goes down, and its name is free.
unfoldable pub rm_self : ℕ → Domino → Domino
unfolding pure_set_state_ok
rm_self ev d = record d {
  marks = (pure_set_state_ok d.marks ev false).0;
  en_ev = erase (get_or d.ev_en ev "") d.en_ev;
  ev_en = set d.ev_en ev "";
}

-- `Domino::rmEv_`
unfoldable pub base_rm_ev : ℕ → Domino → ℕ → Option (Done (Unit {0}))
unfolding rm_links rm_self deduce_and_effect
base_rm_ev fuel d ev =
    deduce_and_effect fuel (rm_self ev (rm_links ev d))
      (find_peer_evs ev d.next.on_true ++ find_peer_evs ev d.next.on_false) tt

-- `isRemovedEv_.insert(aValidEv)`
unfoldable pub mark_removed : ℕ → Domino → Domino
mark_removed ev d = record d {
  is_removed_ev = record { items = ev ∷ d.is_removed_ev.items; first = d.is_removed_ev.first };
}

-- `RmEvDom::rmEv_`
unfoldable pub rm_ev : ℕ → Domino → ℕ → Option (Done (Unit {0}))
unfolding base_rm_ev mark_removed
rm_ev fuel d ev = base_rm_ev fuel d ev >>= λ r. some (record r { dom = mark_removed ev r.dom })

unfoldable pub rm_ev_ok : ℕ → Domino → String → Option (Done Bool)
unfolding rm_ev get_event_by
rm_ev_ok fuel d name = elim (get_event_by d name) [
  | none ↦ some (record { dom = d; effects = []; ret = false })
  | some ev ↦
      rm_ev fuel d ev >>= λ r. some (record { dom = r.dom; effects = r.effects; ret = true })
]
