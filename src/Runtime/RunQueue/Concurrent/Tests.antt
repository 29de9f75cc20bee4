-- ===== src/Runtime/RunQueue/Concurrent/Tests.antt =====
-- The owner pushes two coroutines; a thief has copied the first when the owner pops it.
use coio_rs.Base.{◌<◌, ◌≡◌, refl, arith, [], ◌∷◌, length, usize_mod}
use coio_rs.Runtime.RunQueue.Concurrent.{
  World, Reach, begin, later, fresh, popping, pushing, grabbing, at, begins, owner_moved,
  thief_moved, owner_step, thief_step, steal_copy, steal_done, free, pops, pushes, owner_moves,
  grabs, thief_moves,
}
use coio_rs.Runtime.RunQueue.Concurrent.Kept.{Passes, Reach-Passes}

abbrev owner_goes : World → World
owner_goes w = owner_moved w (owner_step w.owner w.queue)

abbrev thief_goes : World → World
thief_goes w = thief_moved w 0 (thief_step (w.thieves 0) w.queue)

abbrev four : World → World
four w = owner_goes (owner_goes (owner_goes (owner_goes w)))

abbrev two_pushed : World
two_pushed = four (begins (four (begins fresh (pushing 7))) (pushing 8))

abbrev copied : World
copied =
    thief_goes (thief_goes (thief_goes (thief_moved two_pushed 0 (grabbing, two_pushed.queue, []))))

abbrev both : World
both = thief_goes (owner_goes (owner_goes (owner_goes (begins copied popping))))

four-Reach : (w : World) → Reach w → Reach (four w)
four-Reach w r = later (later (later (later r owner_moves) owner_moves) owner_moves) owner_moves

two_pushed-Reach : Reach two_pushed
unfolding owner_step
two_pushed-Reach =
    four-Reach _ (later (four-Reach _ (later begin (pushes [] 7 refl))) (pushes [] 8 refl))

copied-Reach : Reach copied
unfolding owner_step thief_step at
copied-Reach =
    later (later (later (later two_pushed-Reach (grabs 0 [] refl)) (thief_moves 0)) (thief_moves 0))
      (thief_moves 0)

both-Reach : Reach both
unfolding owner_step thief_step at
both-Reach =
    later
      (later (later (later (later copied-Reach (pops [] refl)) owner_moves) owner_moves)
        owner_moves)
      (thief_moves 0)

-- The owner has the first, and the thief begins again.
both_run : (both.removed ≡ 7 ∷ []) × (both.thieves 0 ≡ grabbing)
unfolding owner_step thief_step at
both_run = (refl, refl)

both_few : length both.published < usize_mod
unfolding owner_step thief_step at
both_few = omega arith

Reach-Passes_example : Passes both
Reach-Passes_example = Reach-Passes both both-Reach both_few

-- The last of what is stolen is the result.
last_stolen : (steal_done (5 ∷ []) 6 (steal_copy 6 (5 ∷ []) (fresh.queue)).1).0 ≡ free (6 ∷ [])
unfolding steal_done steal_copy
last_stolen = refl
