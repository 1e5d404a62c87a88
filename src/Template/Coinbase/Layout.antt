-- ===== src/Template/Coinbase/Layout.antt =====
-- Where the parts of the coinbase transaction stand.
use native.Mathlib.Nat.{mod-eq_of_lt, zero-add, suc-add}
use datum_rs.Common.{
  ℕ, ◌+◌, ◌%◌, ◌^◌, ◌≤◌, ◌<◌, ◌≡◌, refl, sym, ap, ◌∙◌, arith, List, [], ◌∷◌, ◌++◌, append_assoc,
  length, length-append, drop, drop_front, get_or, set, some, to_le_bytes, length-to_le_bytes,
}
use datum_rs.Template.{Template, ScriptSigInputs}
use datum_rs.Template.Varint.{push_varint, read_compact_size, read_compact_size-push_varint}
use datum_rs.Template.Height.{bip34_height_script, bip34_height_script_reads}
use datum_rs.Template.Coinbase.{
  build_tag_push_block, build_uid_push_block, build_split_coinbase_bin, coinbase_start,
  scriptsig_len, script_head, tag_body, push_body,
}

length-coinbase_start : length coinbase_start ≡ 41
unfolding to_le_bytes
length-coinbase_start = refl

-- The 41 bytes of version, input count and outpoint are followed by a CompactSize, and it says how
-- many bytes the script has: those that are left of coinb1, and the twelve that the miner fills in.
pub coinb1_declares_script :
    (template : Template) (scriptsig : ScriptSigInputs) (outputs_blob : List ℕ)
    → scriptsig_len template scriptsig < 2 ^ 64
    → (script : List ℕ) × (read_compact_size
          (drop 41 (build_split_coinbase_bin template scriptsig outputs_blob).0)
        ≡ some (length script + 12, script))
unfolding build_split_coinbase_bin scriptsig_len build_uid_push_block
coinb1_declares_script t s os h = (
  script,
  ap read_compact_size rest
      ∙ read_compact_size-push_varint (scriptsig_len t s) script h
      ∙ ap (λ n. some (n, script)) (sym count),
)
  where
    uid : List ℕ
    uid =
        build_uid_push_block s.pot_placeholder s.coinbase_unique_id
        ++ (0x0E ∷ to_le_bytes 2 s.enprefix)

    script : List ℕ
    script =
        script_head t s
        ++ (build_uid_push_block s.pot_placeholder s.coinbase_unique_id
            ++ (0x0E ∷ to_le_bytes 2 s.enprefix))

    rest :
        drop 41 ((coinbase_start ++ (push_varint (scriptsig_len t s) ++ script_head t s)) ++ uid)
        ≡ push_varint (scriptsig_len t s) ++ script
    rest =
        ap (drop 41) (
          append_assoc coinbase_start (push_varint (scriptsig_len t s) ++ script_head t s) uid
          ∙ ap (◌++◌ coinbase_start)
              (append_assoc (push_varint (scriptsig_len t s)) (script_head t s) uid))
        ∙ drop_front 41 coinbase_start (push_varint (scriptsig_len t s) ++ script)
            length-coinbase_start

    count : length script + 12 ≡ scriptsig_len t s
    count = omega (
      arith,
      length-append (script_head t s) uid,
      length-append (bip34_height_script t.height)
          (build_tag_push_block s.coinbase_tag_primary s.coinbase_tag_secondary),
      length-to_le_bytes 2 s.enprefix,
    )

length-tag_body : (p q : List ℕ) → length (tag_body p q) ≤ length p + length q + 2
length-tag_body [] [] = omega arith
length-tag_body [] (s ∷ ss) = omega (arith, length-append ss (0 ∷ []))
length-tag_body (p ∷ ps) [] = omega (arith, length-append ps (0 ∷ []))
length-tag_body (p ∷ ps) (s ∷ ss) =
    omega (arith, length-append ps (0x0F ∷ ((s ∷ ss) ++ (0 ∷ []))), length-append ss (0 ∷ []))

length-push_body : (bs : List ℕ) → length (push_body bs) ≤ length bs + 2
length-push_body [] = omega arith
length-push_body (b ∷ bs) = ground arith

length-push_varint : (n : ℕ) → length (push_varint n) ≤ 9
unfolding push_varint
length-push_varint n = ground (
  arith,
  length-to_le_bytes 2 (n % 2 ^ 16),
  length-to_le_bytes 4 (n % 2 ^ 32),
  length-to_le_bytes 8 n,
)

length-height : (height : ℕ) → height < 2 ^ 32 → length (bip34_height_script height) ≤ 6
length-height height h =
    let (bytes, e, _, _, n) = bip34_height_script_reads height h in rw e (omega (arith, n))

before_fits :
    (t : Template) (s : ScriptSigInputs)
    → t.height < 2 ^ 32
    → length s.coinbase_tag_primary + length s.coinbase_tag_secondary ≤ 60000
    → length (coinbase_start ++ (push_varint (scriptsig_len t s) ++ script_head t s)) < 65000
unfolding build_tag_push_block
before_fits t s h tags = omega (
  arith,
  length-coinbase_start,
  length-append coinbase_start (push_varint (scriptsig_len t s) ++ script_head t s),
  length-append (push_varint (scriptsig_len t s)) (script_head t s),
  length-push_varint (scriptsig_len t s),
  length-append (bip34_height_script t.height)
      (build_tag_push_block s.coinbase_tag_primary s.coinbase_tag_secondary),
  length-height t.height h,
  length-push_body (tag_body s.coinbase_tag_primary s.coinbase_tag_secondary),
  length-tag_body s.coinbase_tag_primary s.coinbase_tag_secondary,
)

get_or-past : (xs ys : List ℕ) (i d : ℕ) → get_or (xs ++ ys) (length xs + i) d ≡ get_or ys i d
get_or-past [] ys i d = rw zero-add refl
get_or-past (x ∷ xs) ys i d = rw suc-add (get_or-past xs ys i d)

set-past : (xs ys : List ℕ) (i v : ℕ) → set (xs ++ ys) (length xs + i) v ≡ xs ++ set ys i v
set-past [] ys i v = rw zero-add refl
set-past (x ∷ xs) ys i v = rw suc-add (ap (◌∷◌ x) (set-past xs ys i v))

-- The same inputs with another placeholder.
abbrev pub with_pot : ScriptSigInputs → ℕ → ScriptSigInputs
with_pot s pot = record {
  coinbase_tag_primary = s.coinbase_tag_primary;
  coinbase_tag_secondary = s.coinbase_tag_secondary;
  coinbase_unique_id = s.coinbase_unique_id;
  enprefix = s.enprefix;
  pot_placeholder = pot;
}

-- For a height below 2^32 and tags of at most 60000 bytes together, the index that is returned is where
-- coinb1 has the PoT placeholder, and setting another byte there changes the placeholder alone: it
-- gives the coinbase that is built with that byte for a placeholder.
pub target_pot_index_points :
    (template : Template) (scriptsig : ScriptSigInputs) (outputs_blob : List ℕ)
    → template.height < 2 ^ 32
    → length scriptsig.coinbase_tag_primary + length scriptsig.coinbase_tag_secondary ≤ 60000
    → (get_or
          (build_split_coinbase_bin template scriptsig outputs_blob).0
          (build_split_coinbase_bin template scriptsig outputs_blob).2
          0
        ≡ scriptsig.pot_placeholder)
      × ((pot : ℕ)
          → set
              (build_split_coinbase_bin template scriptsig outputs_blob).0
              (build_split_coinbase_bin template scriptsig outputs_blob).2
              pot
            ≡ (build_split_coinbase_bin template (with_pot scriptsig pot) outputs_blob).0)
unfolding build_split_coinbase_bin build_uid_push_block scriptsig_len
target_pot_index_points t s os h tags =
    (rw index (get_or-past before uid 1 0), λ pot. rw index (set-past before uid 1 pot))
  where
    before : List ℕ
    before = coinbase_start ++ (push_varint (scriptsig_len t s) ++ script_head t s)

    uid : List ℕ
    uid =
        build_uid_push_block s.pot_placeholder s.coinbase_unique_id
        ++ (0x0E ∷ to_le_bytes 2 s.enprefix)

    index :
        (length (coinbase_start ++ (push_varint (scriptsig_len t s) ++ script_head t s)) + 1)
          % 2 ^ 16
        ≡ length before + 1
    index = mod-eq_of_lt (omega (arith, before_fits t s h tags))

-- The index stands inside coinb1, behind its first byte.
pub target_pot_index_inside :
    (t : Template) (s : ScriptSigInputs) (outputs_blob : List ℕ)
    → t.height < 2 ^ 32
    → length s.coinbase_tag_primary + length s.coinbase_tag_secondary ≤ 60000
    → (1 ≤ (build_split_coinbase_bin t s outputs_blob).2)
      × ((build_split_coinbase_bin t s outputs_blob).2
          < length (build_split_coinbase_bin t s outputs_blob).0)
unfolding build_split_coinbase_bin build_uid_push_block
target_pot_index_inside t s os h tags = (
  omega (arith, before_fits t s h tags),
  omega (
    arith,
    before_fits t s h tags,
    length-append (coinbase_start ++ (push_varint (scriptsig_len t s) ++ script_head t s)) (
        build_uid_push_block s.pot_placeholder s.coinbase_unique_id
        ++ (0x0E ∷ to_le_bytes 2 s.enprefix)),
  ),
)
