-- ===== src/Handles/Tests.antt =====
-- A thread with a scope that has one handle, of the box 7, in a block at 1000; and an inner scope, from
-- which the handle of the box 9 escapes.
use rudo.Prelude.{
  ℕ, ◌+◌, ◌≡◌, ◌≢◌, refl, true, false, none, some, List, [], ◌∷◌, mem, leb, if◌then◌else◌, arith,
  inl,
}
use rudo.Handles
use rudo.Handles.{
  LocalHandles, HandleScope, EscapeableHandleScope, no_handles, handle_block_size, new, handle,
  drop, escape, iterate, set_slot, new_escapeable,
}
use rudo.Handles.Frames.{FreshBlock}
use rudo.Handles.Scopes.{Reachable, started, opened, handled, opened_escapeable}
use rudo.Handles.Live.{live_handles_visited, handle_exact, escaped_handle_visited}
use rudo.Handles.Stale.{stale_slot_visited, first_start, first_open, first_scope}

abbrev running : LocalHandles
running = first_open true 1000 7

fresh_block : FreshBlock 1000 []
fresh_block = (omega arith, λ b m. absurd (ground (arith, m)))

running-Reachable : Reachable true running (1000 ∷ []) ((first_scope true 1000 7, []) ∷ [])
unfolding new handle rudo.Handles.allocate rudo.Handles.add_block
running-Reachable =
    handled {h = first_start true 1000 7} 1000 7 (opened started refl) fresh_block refl

next_block : FreshBlock 2000 (1000 ∷ [])
next_block = (omega arith, λ b m. inl (ground (arith, m)))

live_handles_visited_example :
    (seen : List ℕ) × (iterate running ≡ some seen)
    × ((s : ℕ) → mem s (1000 ∷ []) ≡ true → running.slots s ≢ 0 → mem (running.slots s) seen ≡ true)
live_handles_visited_example = live_handles_visited true running-Reachable λ c e. ground (arith, e)

handle_exact_example :
    (slot : ℕ) × (h' : LocalHandles) × (handle true 2000 8 running ≡ some (slot, h'))
    × (mem slot (1000 ∷ []) ≡ false)
    × (h'.slots slot ≡ 8)
    × ((s : ℕ) → mem s (1000 ∷ []) ≡ true → h'.slots s ≡ running.slots s)
handle_exact_example = handle_exact true running-Reachable 2000 8 next_block refl

stale_slot_visited_example :
    (scope scope' : HandleScope) × (h1 h2 h3 h4 : LocalHandles) × (new no_handles
      ≡ some (scope, h1))
    × (handle true 1000 7 h1 ≡ some (1000, h2))
    × (iterate (drop scope h2) ≡ some [])
    × (new (drop scope h2) ≡ some (scope', h3))
    × (handle true 2000 8 h3 ≡ some (2000, h4))
    × (iterate h4 ≡ some (7 ∷ 8 ∷ []))
    × (iterate (drop scope' h4)
        ≡ (if leb (2000 + handle_block_size) 1000 then none else some (7 ∷ [])))
stale_slot_visited_example =
    stale_slot_visited true 1000 7 2000 8 (omega arith) next_block (omega arith) (omega arith)

abbrev inner : EscapeableHandleScope
inner = record {
  inner = record { prev_next = 1002; prev_limit = 1256; prev_level = 1 };
  escaped = false;
  escape_slot = 1001;
  parent_level = 1;
}

abbrev with_inner : LocalHandles
with_inner = record running { scope_data = record running.scope_data { next = 1002; level = 2 } }

abbrev escaping : LocalHandles
escaping =
    set_slot (record with_inner { scope_data = record with_inner.scope_data { next = 1003 } }) 1002
      9

escaping-Reachable :
    Reachable true escaping
      (1002 ∷ 1001 ∷ 1000 ∷ [])
      ((inner.inner, 1001 ∷ 1000 ∷ []) ∷ (first_scope true 1000 7, []) ∷ [])
unfolding new handle rudo.Handles.allocate rudo.Handles.add_block new_escapeable
escaping-Reachable =
    handled {h = with_inner} 2000 9
      (opened_escapeable {scope = inner} 2000 running-Reachable next_block refl) next_block refl

escaped_handle_visited_example :
    (scope' : EscapeableHandleScope) × (h' : LocalHandles) × (seen : List ℕ) × (escape true inner
        1002 escaping
      ≡ some (1001, scope', h'))
    × (iterate (drop inner.inner h') ≡ some seen)
    × (mem (escaping.slots 1002) seen ≡ true)
    × ((other : ℕ) (later : LocalHandles) → escape true scope' other later ≡ none)
escaped_handle_visited_example =
    escaped_handle_visited true inner escaping-Reachable refl 1002 refl refl (omega arith)
      λ c e. ground (arith, e)
