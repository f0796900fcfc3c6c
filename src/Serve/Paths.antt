-- ===== src/Serve/Paths.antt =====
-- `filepath.Join` of two parts on unix, as modulesdk/serve.go (`moduleAddr`) uses it: the parts that
-- are not empty, joined by a slash and cleaned. `clean` is `filepath.Clean` by elements.
use weaveplatform_sdk.Base.{
  ℕ, Bool, false, ◌&&◌, ◌||◌, ◌==◌, List, [], ◌∷◌, ◌++◌, reverse, Bytes, codes, same, split,
  if◌then◌else◌,
}

abbrev pub slash : ℕ
slash = 47

unfoldable pub is_rooted : Bytes → Bool
is_rooted [] = false
is_rooted (c ∷ s) = c == slash

-- `..` takes back the element in front of it; at the root it is dropped, elsewhere it stays where
-- there is none to take back.
unfoldable pub take_back : Bool → List Bytes → List Bytes
take_back rooted [] = if rooted then [] else codes ".." ∷ []
take_back rooted (e ∷ out) = if same e (codes "..") then codes ".." ∷ e ∷ out else out

-- The elements, the last one first.
unfoldable pub clean_elements : Bool → List Bytes → List Bytes → List Bytes
unfolding take_back
clean_elements rooted [] out = out
clean_elements rooted (e ∷ es) out =
    let skipped = clean_elements rooted es out in
    let back = clean_elements rooted es (take_back rooted out) in
    let kept = clean_elements rooted es (e ∷ out) in
    if same e [] || same e (codes ".") then skipped else if same e (codes "..") then back else kept

unfoldable pub slashed : List Bytes → Bytes
slashed [] = []
slashed (e ∷ []) = e
slashed (e ∷ f ∷ es) = e ++ (slash ∷ slashed (f ∷ es))

unfoldable pub clean : Bytes → Bytes
unfolding is_rooted clean_elements slashed
clean path =
    let rooted = is_rooted path in
    let body = slashed (reverse (clean_elements rooted (split slash path) [])) in
    if rooted then slash ∷ body else if same body [] then codes "." else body

unfoldable pub join_path : Bytes → Bytes → Bytes
unfolding clean
join_path dir name =
    if same dir [] && same name []
    then []
    else if same dir []
    then clean name
    else if same name []
    then clean dir
    else clean (dir ++ (slash ∷ name))
