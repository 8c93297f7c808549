-- ===== src/Tests/Families.antt =====
-- Links and monitors on concrete processes.
use swarmrt.Base.{
  ◌≡◌, refl, List, [], ◌∷◌, ◌++◌, true, false, not, ◌&&◌, ◌||◌, ◌==◌, reverse, arith,
}
use swarmrt.Links.{World, has, add_link, link, monitor, exit}
use swarmrt.Links.Peers.{count}
use swarmrt.Links.Mutual.{IsMutual}
use swarmrt.Links.Symmetry.{
  Change, link_to, unlink_from, ends, apply_all, apply_all-IsMutual, spawn_link-IsMutual,
}
use swarmrt.Links.Exits.{exit_signals, down_signals, exit_reaches}

-- Processes with their slot as pid, of which the slot 3 traps exits.
abbrev alone : World
alone = record {
  pid = λ p. p;
  dead = λ p. false;
  trap = λ p. p == 3;
  reason = λ p. 0;
  killed = λ p. false;
  links = λ p. [];
  watching = λ p. [];
  watched_by = λ p. [];
  next_ref = 1;
  signals = [];
}

alone-IsMutual : IsMutual alone
unfolding count
alone-IsMutual = record {
  mirrored = λ p q. refl;
  single = λ p q. ground arith;
  irreflexive = λ p. refl;
}

abbrev calls : List Change
calls = link_to 1 2 ∷ link_to 1 3 ∷ link_to 2 3 ∷ unlink_from 2 3 ∷ ends 2 7 ∷ []

apply_all-IsMutual_example : IsMutual (apply_all calls alone)
apply_all-IsMutual_example = apply_all-IsMutual calls alone alone-IsMutual

spawn_link-IsMutual_example : IsMutual (add_link 1 2 alone)
spawn_link-IsMutual_example = spawn_link-IsMutual 1 2 alone (ground arith) refl alone-IsMutual

abbrev family : World
family = (monitor 2 1 (link 1 3 (link 1 2 alone).1).1).1

exit_reaches_example :
    ((exit 1 7 family).signals
      ≡ reverse (down_signals 1 7 family (family.watched_by 1))
        ++ (reverse (exit_signals 1 7 family (family.links 1)) ++ family.signals))
    × ((exit 1 7 family).killed 2
        ≡ (family.killed 2 || (has 2 (family.links 1) && not (7 == 0) && not (family.trap 2))))
exit_reaches_example = exit_reaches 1 7 2 family

-- The process 2, which does not trap exits, is killed with its peer, the process 3 is not.
exit-kills : ((exit 1 7 family).killed 2 ≡ true) × ((exit 1 7 family).killed 3 ≡ false)
unfolding exit monitor link add_link
exit-kills = (refl, refl)
