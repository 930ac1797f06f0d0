-- ===== src/Tests/QueueLaws.antt =====
-- The theorems on the queue at concrete queues.
use atm_cache.Base.{ℕ, ◌≡◌, refl, true, some, none, List, [], ◌∷◌, arith, Returns, shallow}
use atm_cache.LinkedList.Seg.{seg}
use atm_cache.LinkedList.Steps.{IsList}
use atm_cache.Queue.{Queue, World, blocking, world_new, queue_pop, queue_size, Reach}
use atm_cache.Queue.Races.{queue_pop-lost}
use atm_cache.Queue.Alone.{queue_pop-first}

abbrev both : List (ℕ × ℕ)
both = (1, 10) ∷ (2, 20) ∷ []

abbrev filled : Queue ℕ
filled = record {
  blk_type = blocking;
  vals = record {
    free_type = shallow;
    can_free = true;
    heap = seg none both none;
    head = some 1;
    tail = some 2;
    size = 2;
  };
}

filled-IsList : IsList filled.vals both
filled-IsList = record {
  holds = λ a. refl;
  distinct = (refl, (refl, tt));
  head_is = refl;
  tail_is = refl;
  counted = refl;
  fits = omega arith;
}

queue_pop-first_example :
    Returns (queue_pop filled) (λ r. (r.0 ≡ some 10) × IsList r.1.vals ((2, 20) ∷ []))
queue_pop-first_example = queue_pop-first filled 1 10 ((2, 20) ∷ []) filled-IsList

queue_pop-lost_example :
    (w : World ℕ) × Reach (world_new blocking shallow true 1) w
    × ((w.popped ≡ some 10 ∷ none ∷ []) × (w.queue.vals.head ≡ none) × (queue_size w.queue ≡ 1))
queue_pop-lost_example = queue_pop-lost shallow true 10 20
