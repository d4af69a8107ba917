-- ===== src/Tests/Crate/Locks.antt =====
-- The test of src/pi.rs that one thread runs.
use rtsc.Prelude.{ℕ, Bool, true, false, ◌&&◌, ◌≡◌, refl}
use rtsc.Pi
use rtsc.Pi.{PiLock, Phase, idle, holding, racing, lock, try_lock}

-- Where `begin` tells the thread to exchange the word, and it has the lock then.
abbrev takes : Phase → Phase × PiLock → Bool
takes (racing lock) (holding, l) = true
takes _ _ = false

abbrev gives_up : Phase → Bool
gives_up idle = true
gives_up _ = false

-- `tid` is the thread. The guard that is leaked leaves the lock as it is.
unfoldable test_block_forever : (tid : ℕ) → Bool
test_block_forever tid =
    let taken = Pi.race lock tid Pi.init in
    takes (Pi.begin lock Pi.init) taken && gives_up (Pi.begin try_lock (Pi.block_forever taken.1))

test_block_forever-passes : (tid : ℕ) → test_block_forever tid ≡ true
unfolding test_block_forever Pi.race Pi.compare_exchange Pi.begin Pi.block_forever Pi.init
test_block_forever-passes tid = refl
