-- ===== src/AutoPublish/Publishers.antt =====
-- In whose name src/domain/department_auto_publish.py publishes for a department.
use qnsc_kb_backend.Prelude.{
  ℕ, String, ◌≡◌, refl, inl, inr, true, Option, none, some, List, [], ◌∷◌, Memᴰ, if◌then◌else◌,
  Bool-cases, nat_eq, string_eq, option_eq, lookup, insert, AllItems, AllItems-insert,
  lookup-AllItems,
}
use qnsc_kb_backend.AutoPublish.{Department, opted_out, add_publisher, publishers}

module _ (company : String) (departments : List Department) where
  -- A department that was opted out has the name, and the user published for it.
  unfoldable pub IsPublisher : String → ℕ → Type 0
  IsPublisher dept id =
      (d : Department) × Memᴰ d departments
      × (opted_out company d ≡ true)
      × (d.name ≡ dept)
      × (d.auto_publish_by ≡ some id)

  add_publisher-IsPublisher :
      (d : Department) (found : List (String × ℕ))
      → Memᴰ d departments
      → AllItems IsPublisher found
      → AllItems IsPublisher (add_publisher company d found)
  unfolding add_publisher IsPublisher
  add_publisher-IsPublisher d found m h = go d.auto_publish_by refl
    where
      go :
          (by : Option ℕ)
          → d.auto_publish_by ≡ by
          → AllItems IsPublisher (elim by [
            | none ↦ found
            | some id ↦ if opted_out company d then insert d.name id found else found
          ])
      go none _ = h
      go (some id) e = elim (Bool-cases (opted_out company d)) [
        | inl o ↦ rw o (AllItems-insert IsPublisher d.name id found (d, m, o, refl, e) h)
        | inr o ↦ rw o h
      ]

  publishers-IsPublisher :
      (ds : List Department) (found : List (String × ℕ))
      → ((d : Department) → Memᴰ d ds → Memᴰ d departments)
      → AllItems IsPublisher found
      → AllItems IsPublisher (publishers company ds found)
  unfolding publishers
  publishers-IsPublisher [] found _ h = h
  publishers-IsPublisher (d ∷ rest) found sub h =
      publishers-IsPublisher rest _ (λ x m. sub x (Memᴰ.tail m))
        (add_publisher-IsPublisher d found (sub d (Memᴰ.head refl)) h)

  pub lookup-IsPublisher :
      (dept : String) (id : ℕ)
      → lookup dept (publishers company departments []) ≡ some id
      → IsPublisher dept id
  lookup-IsPublisher dept id e =
      lookup-AllItems IsPublisher dept id _ e (publishers-IsPublisher departments [] (λ d m. m) tt)
