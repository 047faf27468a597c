-- ===== src/Host/Listed.antt =====
-- The directory listings of crates/shmbus/src/cpu.rs: which nodes and caches are found, and their
-- order.
use mathlib.Core.Option
use mathlib.Core.Option.{some_inj}
use dummy_benchmark.Base.{
  ◌≡◌, ◌⊎◌, inl, inr, Bool, refl, ◌∙◌, sym, ap, ◌↔◌, true, false, Option, none, some, List, [], ◌∷◌,
  ◌++◌, arith,
}
use dummy_benchmark.Base.Sort.{
  Among, first, later, sort_by, IsSortedBy, sort_by-IsSortedBy, Among-sort_by,
}
use dummy_benchmark.Text.{Text, codes, trim}
use dummy_benchmark.Text.Cut.{
  strip_prefix, strip_prefix-append, strip_prefix-eq-some, parse_u32, text_le_total,
}
use dummy_benchmark.Host.{
  DirEntry, FileSystem, join, NumaNode, numa_node, node_le, node_root, keep, read_numa_nodes,
  collect, CacheLevel, cache_level, cache_le, cache_root, read_caches,
}

-- An entry that could be read gives `a`.
pub record IsFrom {ℓ} {A : Type ℓ} (f : DirEntry → Option A) (es : List (Option DirEntry)) (a : A)
    : Type ℓ where
  pub entry : DirEntry
  pub listed : Among (some entry) es
  pub gives : f entry ≡ some a

module _ {ℓ} {A : Type ℓ} {a : A} where
  Among-keep : (o : Option A) (xs : List A) → Among a (keep o xs) → (o ≡ some a) ⊎ Among a xs
  Among-keep none xs h = inr h
  Among-keep (some b) xs (first e) = inl (ap some (sym e))
  Among-keep (some b) xs (later m) = inr m

  keep_here : (o : Option A) (xs : List A) → o ≡ some a → Among a (keep o xs)
  keep_here none xs h = absurd (cc)
  keep_here (some b) xs h = first (sym (some_inj.0 h))

  keep_later : (o : Option A) (xs : List A) → Among a xs → Among a (keep o xs)
  keep_later none xs h = h
  keep_later (some b) xs h = later h

module _ {ℓ} {A : Type ℓ} (f : DirEntry → Option A) (a : A) where
  IsFrom-later :
      (e : Option DirEntry) (es : List (Option DirEntry)) → IsFrom f es a → IsFrom f (e ∷ es) a
  IsFrom-later e es h = record { entry = h.entry; listed = later h.listed; gives = h.gives }

  collect-IsFrom : (es : List (Option DirEntry)) → Among a (collect f es) → IsFrom f es a
  unfolding collect
  collect-IsFrom [] h = elim h [ ]
  collect-IsFrom (none ∷ es) h = IsFrom-later none es (collect-IsFrom es h)
  collect-IsFrom (some e ∷ es) h = elim (Among-keep (f e) (collect f es) h) [
    | inl gives ↦ record { entry = e; listed = first refl; gives = gives }
    | inr m ↦ IsFrom-later (some e) es (collect-IsFrom es m)
  ]

  Among-collect :
      (es : List (Option DirEntry)) (e : DirEntry)
      → Among (some e) es
      → f e ≡ some a
      → Among a (collect f es)
  unfolding collect
  Among-collect [] e h g = elim h [ ]
  Among-collect (none ∷ es) e (first q) g = absurd (cc)
  Among-collect (none ∷ es) e (later m) g = Among-collect es e m g
  Among-collect (some d ∷ es) e (first q) g =
      keep_here (f d) (collect f es) (ap f (sym (some_inj.0 q)) ∙ g)
  Among-collect (some d ∷ es) e (later m) g =
      keep_later (f d) (collect f es) (Among-collect es e m g)

  module _ (le : A → A → Bool) (es : List (Option DirEntry)) where
    Among-sorted : Among a (sort_by le (collect f es)) ↔ IsFrom f es a
    Among-sorted =
        let same = Among-sort_by le a (collect f es) in
        (λ h. collect-IsFrom es (same.0 h), λ h. same.1 (Among-collect es h.entry h.listed h.gives))

-- The node `n` stands in the directory: an entry is called `node` and its number, and its file
-- `cpulist` holds its CPUs.
pub record IsNode (fs : FileSystem) (es : List (Option DirEntry)) (n : NumaNode) : Type 0 where
  pub entry : DirEntry
  pub number : Text
  pub cpulist : Text
  pub listed : Among (some entry) es
  pub named : entry.name ≡ codes "node" ++ number
  pub numbered : parse_u32 number ≡ some n.node
  pub reads : fs.read_to_string (join entry.path (codes "cpulist")) ≡ some cpulist
  pub trimmed : n.cpus ≡ trim cpulist

module _ (fs : FileSystem) (es : List (Option DirEntry)) (n : NumaNode) where
  IsFrom-IsNode : IsFrom (numa_node fs) es n → IsNode fs es n
  unfolding numa_node
  IsFrom-IsNode h =
      let (number, e1, k1) =
        (Option.bind-eq-some_iff (strip_prefix (codes "node") h.entry.name) _).0 h.gives in
      let (id, e2, k2) = (Option.bind-eq-some_iff (parse_u32 number) _).0 k1 in
      let (s, e3, k3) =
        (Option.bind-eq-some_iff (fs.read_to_string (join h.entry.path (codes "cpulist"))) _).0
          k2 in
      record {
        entry = h.entry;
        number = number;
        cpulist = s;
        listed = h.listed;
        named = strip_prefix-eq-some (codes "node") h.entry.name e1;
        numbered = e2 ∙ ap (λ (m : NumaNode). some m.node) (some_inj.0 k3);
        reads = e3;
        trimmed = sym (ap (λ (m : NumaNode). m.cpus) (some_inj.0 k3));
      }

  IsNode-IsFrom : IsNode fs es n → IsFrom (numa_node fs) es n
  unfolding numa_node Option.bind
  IsNode-IsFrom h = record {
    entry = h.entry;
    listed = h.listed;
    gives =
        rw (numa_node, h.named, strip_prefix-append (codes "node") h.number, h.numbered, h.reads)
          (ap (λ (c : Text). some (record n { cpus = c })) (sym h.trimmed));
  }

node_le_total : (a b : NumaNode) → node_le a b ≡ false → node_le b a ≡ true
unfolding node_le
node_le_total a b h = ground arith

cache_le_total : (a b : CacheLevel) → cache_le a b ≡ false → cache_le b a ≡ true
unfolding cache_le
cache_le_total a b h = ground (arith, text_le_total a.kind b.kind)

module _ (fs : FileSystem) (es : List (Option DirEntry)) where
  -- When the directory of the nodes can be read, the NUMA nodes come in the order of their numbers,
  -- and they are exactly those whose entry is named after a number that fits a `u32` and whose CPU
  -- list can be read.
  pub read_numa_nodes-IsNode :
      fs.read_dir node_root ≡ some es
      → IsSortedBy node_le (read_numa_nodes fs)
        × ((n : NumaNode) → Among n (read_numa_nodes fs) ↔ IsNode fs es n)
  unfolding read_numa_nodes
  read_numa_nodes-IsNode h =
      rw (read_numa_nodes, h)
        (
          sort_by-IsSortedBy node_le node_le_total (collect (numa_node fs) es),
          λ n.
              let from = Among-sorted (numa_node fs) n node_le es in
              (λ m. IsFrom-IsNode fs es n (from.0 m), λ m. from.1 (IsNode-IsFrom fs es n m)),
        )

  -- When the directory of the caches can be read, the caches come in the order of their levels, and
  -- on one level in that of their kinds; they are exactly those of the entries that give one.
  pub read_caches-IsFrom :
      fs.read_dir cache_root ≡ some es
      → IsSortedBy cache_le (read_caches fs)
        × ((c : CacheLevel) → Among c (read_caches fs) ↔ IsFrom (cache_level fs) es c)
  unfolding read_caches
  read_caches-IsFrom h =
      rw (read_caches, h)
        (
          sort_by-IsSortedBy cache_le cache_le_total (collect (cache_level fs) es),
          λ c. Among-sorted (cache_level fs) c cache_le es,
        )
