-- ===== src/Drive/Tree/Listing.antt =====
-- When the builder of internal/drive/tree.go makes a folder: only behind a listing of its parent that
-- shows no object of its name.
use baidu_drive_mover.Base.{
  ◌≡◌, refl, ap, subst, ◌∙◌, List, [], ◌∷◌, some, Result, ok, err, err≢ok, ok-eq, if◌then◌else◌,
}
use baidu_drive_mover.Base.Effects.{
  After-weaken, Triple, Keeps, bind, weaken, lift, return-Triple, lift-Triple, expect-Triple,
}
use baidu_drive_mover.Text.{Str, bytes, str_eq}
use baidu_drive_mover.Path.{dir}
use baidu_drive_mover.World.{At, World, outside_call-Ran}
use baidu_drive_mover.Drive.Logical.{Reason, RemoteItem, remote_path}
use baidu_drive_mover.Drive.Guarded.{Out}
use baidu_drive_mover.Drive.Tree
use baidu_drive_mover.Drive.Tree.{TreeBuilder, TreeProblem}

-- The parent of a folder.
abbrev pub parent_of : Str → Str
parent_of path = if str_eq (dir path) (bytes ".") then bytes "/" else dir path

-- `P` is what the calls for one client keep, and `Clear parent name` what a listing of `parent`
-- without an object of the name leaves behind.
pub record IsLister {W E : Type 0} (b : TreeBuilder W E) (run : Tree.Command b) (P : W → Type 0)
    (Clear : Str → Str → W → Type 0) : Type 0 where
  pub listed :
      (remote : Str) (w : W) → P w → P (run (bytes "lsjson") (remote ∷ Tree.tree_flags) w).0
  pub cleared :
      (parent name remote out : Str) (items : List RemoteItem) (w : W)
      → P w
      → remote_path parent ≡ ok remote
      → (run (bytes "lsjson") (remote ∷ Tree.tree_flags) w).1 ≡ ok out
      → b.parse_items out ≡ some items
      → Tree.directory_matches name items ≡ ok []
      → Clear parent name (run (bytes "lsjson") (remote ∷ Tree.tree_flags) w).0

pub of_logical-ok :
    {E A : Type 0} (r : Result Reason A) {a : A} → Tree.of_logical {E = E} r ≡ ok a → r ≡ ok a
unfolding Tree.of_logical
of_logical-ok (ok b) h = ap ok (ok-eq h)
of_logical-ok (err e) h = absurd (err≢ok h)

of_tree-ok :
    {E A : Type 0} (r : Result TreeProblem A) {a : A} → Tree.of_tree {E = E} r ≡ ok a → r ≡ ok a
unfolding Tree.of_tree
of_tree-ok (ok b) h = ap ok (ok-eq h)
of_tree-ok (err e) h = absurd (err≢ok h)

module _ {W E : Type 0} {b : TreeBuilder W E} {run : Tree.Command b} {P : W → Type 0}
    {Clear : Str → Str → W → Type 0} (l : IsLister b run P Clear) where
  abbrev pub Kept : World W → Type 0
  Kept = At (Out P)

  -- Behind a listing.
  abbrev pub Listed : Str → Str → List RemoteItem → World W → Type 0
  Listed parent name items s = Kept s × (items ≡ [] → Clear parent name s.outside)

  pub lift-Kept : {D A : Type 0} (r : Result D A) → Keeps Kept (lift r)
  lift-Kept r = lift-Triple r (λ s a p h. p) (λ s e p. p)

  exact_directory_matches-Listed :
      (parent name remote raw : Str)
      → remote_path parent ≡ ok remote
      → Triple
          (λ s.
            (w : W) × P w
            × (run (bytes "lsjson") (remote ∷ Tree.tree_flags) w ≡ (s.outside, ok raw)))
          (Tree.exact_directory_matches b raw name)
          (Listed parent name)
          (λ _. Kept)
  unfolding Tree.exact_directory_matches
  exact_directory_matches-Listed parent name remote raw path =
      bind
        {Q = λ items s.
          ((w : W) × P w
            × (run (bytes "lsjson") (remote ∷ Tree.tree_flags) w ≡ (s.outside, ok raw)))
          × (b.parse_items raw ≡ some items)}
        (expect-Triple (b.parse_items raw) _ (λ s items p h. (p, h))
          (λ s (w, p, ran). subst P (ap (λ r. r.0) ran) (l.listed remote w p)))
        λ items.
          lift-Triple (Tree.of_tree (Tree.directory_matches name items))
            (λ s matches ((w, p, ran), parsed) h. (
              subst P (ap (λ r. r.0) ran) (l.listed remote w p),
              λ none_. subst (Clear parent name) (ap (λ r. r.0) ran) (
                  l.cleared parent name remote raw items w p path (ap (λ r. r.1) ran) parsed
                    (of_tree-ok _ h ∙ ap ok none_)),
            ))
            (λ s e ((w, p, ran), parsed). subst P (ap (λ r. r.0) ran) (l.listed remote w p))

  pub list_named_directories-Listed :
      (parent name : Str)
      → Triple Kept (Tree.list_named_directories b run parent name) (Listed parent name) (λ _. Kept)
  unfolding Tree.list_named_directories
  list_named_directories-Listed parent name =
      bind {Q = λ remote s. Kept s × (remote_path parent ≡ ok remote)}
        (lift-Triple (Tree.of_logical (remote_path parent)) (λ s r p h. (p, of_logical-ok _ h))
          (λ s e p. p))
        λ remote.
          bind
            {Q = λ raw s.
              ((w : W) × P w
                × (run (bytes "lsjson") (remote ∷ Tree.tree_flags) w ≡ (s.outside, ok raw)))
              × (remote_path parent ≡ ok remote)}
            (λ s p.
              After-weaken
                (outside_call-Ran (Out P) (run (bytes "lsjson") (remote ∷ Tree.tree_flags)) s p.0)
                (λ raw t q. (q, p.1)) (λ e t (w, q, ran). subst P ran (l.listed remote w q)))
            λ raw s p. exact_directory_matches-Listed parent name remote raw p.1 s p.0

  -- A folder is made where the listing has found none.
  pub make_if_missing-Kept :
      (target : Result Reason Str) (parent name : Str) (items : List RemoteItem)
      → ((remote : Str) (w : W)
          → Clear parent name w
          → target ≡ ok remote
          → P (run (bytes "mkdir") (remote ∷ []) w).0)
      → Triple
          (Listed parent name items)
          (Tree.make_if_missing b run target parent name items)
          (λ _. Kept)
          (λ _. Kept)
  unfolding Tree.make_if_missing
  make_if_missing-Kept target parent name (item ∷ items) made =
      return-Triple (item ∷ items) (λ s p. p.0)
  make_if_missing-Kept target parent name [] made =
      bind {Q = λ remote s. Clear parent name s.outside × (target ≡ ok remote)}
        (lift-Triple (Tree.of_logical target) (λ s r p h. (p.1 refl, of_logical-ok _ h))
          (λ s e p. p.0))
        λ remote.
          bind
            (λ s p.
              After-weaken
                (outside_call-Ran (Out (Clear parent name)) (run (bytes "mkdir") (remote ∷ [])) s
                  p.0)
                (λ out t (w, q, ran). subst P (ap (λ r. r.0) ran) (made remote w q p.1))
                (λ e t (w, q, ran). subst P ran (made remote w q p.1)))
            λ _.
              weaken (list_named_directories-Listed parent name) (λ s p. p) (λ _ s p. p.0)
                (λ _ s p. p)
