-- ===== src/Tests/Sample.antt =====
-- A JSON library as trees that are printed as themselves, and the data that the tests share.
use x1miner.Base.{
  ℕ, ◌≡◌, refl, ap, Bool, true, false, Option, none, some, List, [], ◌∷◌, if◌then◌else◌, replicate,
  ◌*◌, ◌/◌, ◌^◌, ltb, ◌&&◌,
}
use x1miner.Base.Int.{ℤ, pos, ◌+ℤ◌, ◌-ℤ◌, ◌*ℤ◌, quot, ◌<ℤ?◌, ◌≤ℤ?◌}
use x1miner.Base.Double.{Double}
use x1miner.Base.Text.{Text, codes, text_eq}
use x1miner.Common.{BlockHit}
use x1miner.Common.Json.{JsonLib, JsonLaws, lookup}
use x1miner.Queue.Store.{BlockStore, Disk}

mutual
  pub data Tree : Type 0 where
    null : Tree
    str : Text → Tree
    int : ℤ → Tree
    num : ℕ → Tree
    flag : Bool → Tree
    arr : Trees → Tree
    obj : Pairs → Tree

  pub data Trees : Type 0 where
    done : Trees
    next : Tree → Trees → Trees

  pub data Pairs : Type 0 where
    end : Pairs
    pair : Text → Tree → Pairs → Pairs

abbrev to_trees : List Tree → Trees
to_trees [] = Trees.done
to_trees (t ∷ l) = Trees.next t (to_trees l)

abbrev of_trees : Trees → List Tree
of_trees Trees.done = []
of_trees (Trees.next t l) = t ∷ of_trees l

abbrev to_pairs : List (Text × Tree) → Pairs
to_pairs [] = Pairs.end
to_pairs ((k, t) ∷ l) = Pairs.pair k t (to_pairs l)

abbrev find_pair : Text → Pairs → Option Tree
find_pair k Pairs.end = none
find_pair k (Pairs.pair j t l) = if text_eq j k then some t else find_pair k l

abbrev tree_is_object : Tree → Bool
tree_is_object (Tree.obj _) = true
tree_is_object _ = false

abbrev tree_is_array : Tree → Bool
tree_is_array (Tree.arr _) = true
tree_is_array _ = false

abbrev tree_is_null : Tree → Bool
tree_is_null Tree.null = true
tree_is_null _ = false

abbrev tree_get : Tree → Text → Option Tree
tree_get (Tree.obj m) k = find_pair k m
tree_get _ k = none

abbrev tree_items : Tree → List Tree
tree_items (Tree.arr l) = of_trees l
tree_items _ = []

abbrev tree_text : Tree → Option Text
tree_text (Tree.str t) = some t
tree_text _ = none

abbrev tree_int : Tree → Option ℤ
tree_int (Tree.int n) = some n
tree_int _ = none

abbrev tree_num : Tree → Option ℕ
tree_num (Tree.num n) = some n
tree_num _ = none

abbrev tree_flag : Tree → Option Bool
tree_flag (Tree.flag b) = some b
tree_flag _ = none

-- Every byte of a text is below 128.
abbrev bytes_are_ascii : Text → Bool
bytes_are_ascii [] = true
bytes_are_ascii (b ∷ t) = ltb b 128 && bytes_are_ascii t

abbrev tree_is_ascii : Tree → Bool
tree_is_ascii (Tree.str t) = bytes_are_ascii t
tree_is_ascii _ = true

abbrev pub trees : JsonLib ℕ
trees = record {
  Json = Tree;
  Doc = Tree;
  parse = λ t. some t;
  dump = λ t. t;
  prints = tree_is_ascii;
  object = λ m. Tree.obj (to_pairs m);
  array = λ l. Tree.arr (to_trees l);
  text = Tree.str;
  int = Tree.int;
  num = Tree.num;
  bool = Tree.flag;
  is_object = tree_is_object;
  is_array = tree_is_array;
  is_null = tree_is_null;
  get? = tree_get;
  items = tree_items;
  as_text = tree_text;
  as_int = tree_int;
  as_num = tree_num;
  as_bool = tree_flag;
  IsPrintable = λ _. Unit;
}

find_pair-to_pairs : (m : List (Text × Tree)) (k : Text) → find_pair k (to_pairs m) ≡ lookup k m
unfolding lookup
find_pair-to_pairs [] k = refl
find_pair-to_pairs (p ∷ m) k =
    ap (λ (r : Option Tree). if text_eq p.0 k then some p.1 else r) (find_pair-to_pairs m k)

of_trees-to_trees : (l : List Tree) → of_trees (to_trees l) ≡ l
of_trees-to_trees [] = refl
of_trees-to_trees (t ∷ l) = ap (◌∷◌ t) (of_trees-to_trees l)

pub trees_laws : JsonLaws trees
trees_laws = record {
  parse-dump = λ j _. refl;
  object_is = λ m. refl;
  array_is = λ l. refl;
  int_not_null = λ n. refl;
  get?-object = find_pair-to_pairs;
  items-array = of_trees-to_trees;
  as_text-text = λ t. refl;
  as_int-int = λ n. refl;
  as_num-num = λ x. refl;
  as_bool-bool = λ b. refl;
}

abbrev pub hit_of : Text → Text → ℤ → BlockHit ℕ
hit_of hash kind m = record {
  key = replicate 64 b'a';
  hash_str = hash;
  block_type = kind;
  attempts = pos 7;
  strategy = codes "random";
  hps = 13;
  found_at = codes "2026-08-12T10:00:00";
  memory_cost = some m;
}

abbrev pub no_files : Disk Tree
no_files = record { db = none; jsonl = []; rejected = [] }

-- A store that was started with no files.
abbrev pub fresh : BlockStore ℕ Tree
fresh = record { pending = []; hash_index = []; next_id = pos 1; dirty_ops = 0; disk = no_files }

-- Doubles as thousandths.
abbrev pub thousandths : Double
thousandths = record {
  F = ℤ;
  lit = λ n k. pos (n * 1000 / 10 ^ k);
  of_int = λ z. z *ℤ pos 1000;
  add = λ a b. a +ℤ b;
  sub = λ a b. a -ℤ b;
  mul = λ a b. quot (a *ℤ b) (pos 1000);
  div = λ a b. quot (a *ℤ pos 1000) b;
  lt = λ a b. a <ℤ? b;
  le = λ a b. a ≤ℤ? b;
  llround = λ a. quot (a +ℤ pos 500) (pos 1000);
  trunc = λ a. quot a (pos 1000);
}

-- The same library, its doubles the thousandths.
abbrev pub trees_of_thousandths : JsonLib ℤ
trees_of_thousandths = record {
  Json = Tree;
  Doc = Tree;
  parse = λ t. some t;
  dump = λ t. t;
  prints = tree_is_ascii;
  object = λ m. Tree.obj (to_pairs m);
  array = λ l. Tree.arr (to_trees l);
  text = Tree.str;
  int = Tree.int;
  num = Tree.int;
  bool = Tree.flag;
  is_object = tree_is_object;
  is_array = tree_is_array;
  is_null = tree_is_null;
  get? = tree_get;
  items = tree_items;
  as_text = tree_text;
  as_int = tree_int;
  as_num = tree_int;
  as_bool = tree_flag;
  IsPrintable = λ _. Unit;
}
