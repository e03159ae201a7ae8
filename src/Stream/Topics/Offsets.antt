-- ===== src/Stream/Topics/Offsets.antt =====
-- The offset that a group has committed.
use flin.Prelude.{ℕ, ◌^◌, ◌<◌, ◌≡◌, refl, ap, [], ◌++◌, arith}
use flin.Wire.Outcome.{Bytes, ok}
use flin.Wire.BigEndian.{put_be}
use flin.Wire.Reader.{uint, run-Reads, Reads-uint}
use flin.Wire.Table.{find, find-put_self}
use flin.Badger.{Badger, Reliable}
use flin.Stream.Keys.{cache_key, make_consumer_offset_key}
use flin.Stream.Storage.{StreamStorage, commit_offset, get_consumer_offset}
use flin.Stream.Topics.Defs.{Stream, cached_offset, commit, get_cached_offset}

module _ (b : Badger) (r : Reliable b) where
  commit_offset_lem :
      (group topic : Bytes) (partition offset now : ℕ) (s : StreamStorage b)
      → offset < 2 ^ 64
      → ((commit_offset b group topic partition offset now s).0 ≡ ok tt)
        × (get_consumer_offset b group topic partition
              (commit_offset b group topic partition offset now s).1
            ≡ ok offset)
  unfolding commit_offset get_consumer_offset
  commit_offset_lem group topic partition offset now s h =
      let key = make_consumer_offset_key group topic partition in
      let (t, e) = r.sets s.db key (put_be 8 offset ++ put_be 8 now) in
      rw (e, r.commits t, b.get-set_self s.db t key _ e)
        (
          refl,
          run-Reads (uint 8) (put_be 8 offset) (put_be 8 now) (Reads-uint 8 offset (omega arith)),
        )

  -- The stream as it starts again on its database: nothing is cached.
  abbrev pub restarted : Stream b → Stream b
  restarted s = record {
    storage = record { db = s.storage.db; partition_offsets = []; write_buffer = [] };
    topics = [];
    groups = [];
    offset_cache = [];
  }

  -- On a store that accepts writes, an offset that Commit stored is the one from which the group goes on,
  -- before and after a restart.
  pub commit-get_cached_offset :
      (group topic : Bytes) (partition offset now : ℕ) (s : Stream b)
      → offset < 2 ^ 64
      → let left = (commit b topic group partition offset now s).1 in
        ((commit b topic group partition offset now s).0 ≡ ok tt)
        × ((get_cached_offset b group topic partition left).0 ≡ ok offset)
        × ((get_cached_offset b group topic partition (restarted left)).0 ≡ ok offset)
  unfolding commit get_cached_offset get_consumer_offset find
  commit-get_cached_offset group topic partition offset now s h =
      let key = cache_key group topic partition in
      let (returned, stored) = commit_offset_lem group topic partition offset now s.storage h in
      let left = (commit b topic group partition offset now s).1 in
      (
        returned,
        rw (find-put_self key offset s.offset_cache, get_cached_offset),
        ap (λ o. (cached_offset b o key (restarted left)).0) stored,
      )
