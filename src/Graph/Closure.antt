-- ===== src/Graph/Closure.antt =====
-- The stack loop of `computeClosure`.
pub mod Laws
use atlas_manager.Base.{
  ℕ, zero, suc, ◌+◌, Bool, true, false, not, ◌||◌, List, [], ◌∷◌, ◌++◌, Str, str_eq, if◌then◌else◌,
  includes,
}

-- The inner loop: a neighbor that is new, and not the start, enters the result and the stack. The top of
-- the stack is the head of the list.
unfoldable pub add_new : Str → List Str → List Str → List Str → List Str × List Str
unfolding str_eq
add_new start [] result stack = (result, stack)
add_new start (n ∷ ns) result stack =
    if includes result n || str_eq n start
    then add_new start ns result stack
    else add_new start ns (result ++ (n ∷ [])) (n ∷ stack)

-- The outer loop on fuel: each node enters the stack at most once.
unfoldable pub close_from : ℕ → (Str → List Str) → Str → List Str → List Str → List Str × List Str
unfolding add_new
close_from fuel next start result [] = (result, [])
close_from zero next start result (current ∷ stack) = (result, current ∷ stack)
close_from (suc fuel) next start result (current ∷ stack) =
    let (result', stack') = add_new start (next current) result stack in
    close_from fuel next start result' stack'

-- The closure of `start` in a graph of `size` nodes.
unfoldable pub close : ℕ → (Str → List Str) → Str → List Str
close size next start = (close_from (suc size) next start [] (start ∷ [])).0
