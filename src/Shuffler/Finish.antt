-- ===== src/Shuffler/Finish.antt =====
-- cpp/src/shuffler/finish_counter.cpp: how a rank knows that it has received every chunk.
use rapidsmpf.Prelude.{
  ℕ, ◌+◌, ◌%◌, ◌^◌, List, Bool, true, false, not, ◌&&◌, ◌||◌, ltb, leb, ◌==◌, if◌then◌else◌, get_or,
  set, replicate,
}
use rapidsmpf.Prelude.Result.{Result, ok, expects, logic_error, ◌>>◌}

-- Ranks are numbers; the two chunk counters are 64-bit and wrap.
pub record FinishCounter : Type 0 where
  pub nranks : ℕ
  pub n_ranks_with_goalpost : ℕ
  pub total_chunk_goal : ℕ
  pub total_finished_chunks : ℕ
  pub rank_reported : List Bool

-- A rank that owns no partition expects to hear from nobody.
unfoldable pub create : ℕ → ℕ → FinishCounter
create nranks n_local_partitions =
    let n = if ltb 0 n_local_partitions then nranks else 0 in
    record {
      nranks = n;
      n_ranks_with_goalpost = 0;
      total_chunk_goal = 0;
      total_finished_chunks = 0;
      rank_reported = replicate n false;
    }

unfoldable pub all_finished : FinishCounter → Bool
all_finished c =
    c.n_ranks_with_goalpost == c.nranks && c.total_finished_chunks == c.total_chunk_goal

unfoldable pub move_goalpost : FinishCounter → ℕ → ℕ → Result FinishCounter
move_goalpost c src_rank nchunks = do
  expects (not (nchunks == 0)) logic_error
  expects (ltb src_rank c.nranks) logic_error
  expects (not (get_or c.rank_reported src_rank false)) logic_error
  ok (record c {
    rank_reported = set c.rank_reported src_rank true;
    n_ranks_with_goalpost = c.n_ranks_with_goalpost + 1;
    total_chunk_goal = (c.total_chunk_goal + nchunks) % 2 ^ 64;
  })

-- The check comes after the increment.
unfoldable pub add_finished_chunk : FinishCounter → FinishCounter × Result (Unit {0})
add_finished_chunk c =
    let n = (c.total_finished_chunks + 1) % 2 ^ 64 in
    (
      record c { total_finished_chunks = n },
      expects (ltb c.n_ranks_with_goalpost c.nranks || leb n c.total_chunk_goal) logic_error,
    )
