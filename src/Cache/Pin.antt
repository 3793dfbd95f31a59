-- ===== src/Cache/Pin.antt =====
-- The rules for the pinned map: crates/doggy-dns-xdp/src/pin.rs. The layouts are those of
-- `CacheKey` (16 bytes) and `CacheValue` (528 bytes).
use doggy_dns.Common.{ℕ, ◌≡◌, ◌↔◌, Bool, true, false, not, List, [], ◌∷◌, ◌==◌, arith}

pub record DeclaredCacheShape : Type 0 where
  pub key_size : ℕ
  pub value_size : ℕ
  pub max_entries : ℕ

pub record PinnedCacheShape : Type 0 where
  pub is_lru_hash : Bool
  pub key_size : ℕ
  pub value_size : ℕ
  pub max_entries : ℕ

pub data CacheShapeMismatch : Type 0 where
  not_lru_hash : CacheShapeMismatch
  key_size value_size max_entries : (actual expected : ℕ) → CacheShapeMismatch

-- The reason, if the test says so.
unfoldable pub push_if :
    Bool → CacheShapeMismatch → List CacheShapeMismatch → List CacheShapeMismatch
push_if true m rest = m ∷ rest
push_if false m rest = rest

unfoldable pub cache_shape_mismatch :
    PinnedCacheShape → DeclaredCacheShape → List CacheShapeMismatch
unfolding push_if
cache_shape_mismatch pinned declared = push_if (not pinned.is_lru_hash) not_lru_hash (
    push_if (not (pinned.key_size == declared.key_size))
      (key_size pinned.key_size declared.key_size)
      (push_if (not (pinned.value_size == declared.value_size))
        (value_size pinned.value_size declared.value_size)
        (push_if (not (pinned.max_entries == declared.max_entries))
          (max_entries pinned.max_entries declared.max_entries) [])))

-- A pinned map has no mismatch just where it is an LRU hash with the sizes and the capacity that
-- are declared.
pub cache_shape_mismatch-nil_iff :
    (pinned : PinnedCacheShape) (declared : DeclaredCacheShape)
    → (cache_shape_mismatch pinned declared ≡ []) ↔ (
        (pinned.is_lru_hash ≡ true)
        × ((pinned.key_size ≡ declared.key_size)
            × ((pinned.value_size ≡ declared.value_size)
                × (pinned.max_entries ≡ declared.max_entries))))
unfolding cache_shape_mismatch push_if
cache_shape_mismatch-nil_iff pinned declared =
    ((λ e. (ground arith, (ground arith, (ground arith, ground arith)))), (λ h. ground arith))
