-- ===== src/Commands/Parse.antt =====
-- The parsers of dynamictorque/local_commands.py, from the XML tree on.
use Prim.Native.Char.{code}
use Prim.Native.Char.{Char}
use Prim.Native.String.{◌++◌ as ◌<>◌}
use text.Mathlib.Text.{find?}
use dynamictorque.Base.{
  ℕ, zero, suc, ◌+◌, String, Bool, true, false, ◌&&◌, ◌||◌, Option, none, some, List, [], ◌∷◌, ◌++◌,
  leb, ◌==◌, str_eq, any, filter, is_some, length, map, split_first, to_number, if◌then◌else◌,
}
use dynamictorque.Base.Int.{ℤ, pos, negsuc, ltb_ℤ}
use dynamictorque.Base.Dict.{Dict, lookup, insert}
use dynamictorque.Base.Sort.{sort_by}
use dynamictorque.Base.Action.{
  Result, ok, err, key_error, value_error, attribute_error, parse_error,
}
use dynamictorque.Config.{Config}
use dynamictorque.JobScheduler.{Job}
use dynamictorque.World.{World, Item, Child}

-- A worker node, as `pbsnodes` describes it.
abbrev pub Node : Type 0
Node = Dict String

pub record JobPriority : Type 0 where
  pub job_id : ℕ
  pub priority : ℤ

-- `needle in text`
abbrev pub contains_text : String → String → Bool
contains_text needle s = is_some (find? s needle)

abbrev is_space : ℕ → Bool
is_space c = c == 32 || (leb 9 c && leb c 13)

-- `s.strip() == ""`
abbrev pub is_blank : String → Bool
is_blank String.[] = true
is_blank (String.◌∷◌ c s) = is_space (code c) && is_blank s

-- `s.strip()`
abbrev lstrip : String → String
lstrip String.[] = String.[]
lstrip (String.◌∷◌ c s) = if is_space (code c) then lstrip s else String.◌∷◌ c s

abbrev rstrip : String → String
rstrip String.[] = String.[]
rstrip (String.◌∷◌ c s) =
    if is_space (code c) && is_blank s then String.[] else String.◌∷◌ c (rstrip s)

abbrev pub strip : String → String
strip s = rstrip (lstrip s)

-- `s.lower()`, for ASCII.
abbrev translate : String → String → Char → Char
translate (String.◌∷◌ u us) (String.◌∷◌ l ls) c = if code u == code c then l else translate us ls c
translate _ _ c = c

abbrev lower_char : Char → Char
lower_char = translate "ABCDEFGHIJKLMNOPQRSTUVWXYZ" "abcdefghijklmnopqrstuvwxyz"

abbrev pub lower : String → String
lower String.[] = String.[]
lower (String.◌∷◌ c s) = String.◌∷◌ (lower_char c) (lower s)

abbrev first_line : String → String
first_line String.[] = String.[]
first_line (String.◌∷◌ c s) = if code c == 10 then String.[] else String.◌∷◌ c (first_line s)

-- The text behind a prefix, if it stands there.
abbrev drop_prefix : String → String → Option String
drop_prefix String.[] s = some s
drop_prefix (String.◌∷◌ p ps) String.[] = none
drop_prefix (String.◌∷◌ p ps) (String.◌∷◌ c s) =
    let rest = drop_prefix ps s in if code p == code c then rest else none

abbrev or_else : Option String → Option String → Option String
or_else none other = other
or_else (some s) other = some s

-- The text behind the first occurrence.
abbrev text_after : String → String → Option String
text_after prefix String.[] = drop_prefix prefix String.[]
text_after prefix (String.◌∷◌ c s) =
    or_else (drop_prefix prefix (String.◌∷◌ c s)) (text_after prefix s)

-- The group of `re.search("state = (.*)", output)`, stripped and in lower case.
abbrev pub state_of : String → String
state_of output = elim (text_after "state = " output) [
  | none ↦ "unknown"
  | some rest ↦ lower (strip (first_line rest))
]

-- `line.split(" ")[0].strip()`
abbrev pub first_word : String → String
first_word line = strip (split_first b' ' line)

abbrev add_grandchildren : String → Dict String → Dict String → Dict String
add_grandchildren tag [] d = d
add_grandchildren tag ((t, v) ∷ more) d =
    add_grandchildren tag more (insert (tag <> ("." <> t)) v d)

abbrev add_child : Child → Dict String → Dict String
add_child child d = elim child.text [
  | none ↦ add_grandchildren child.tag child.grandchildren d
  | some value ↦ insert child.tag value d
]

-- The dict of one `Node` or `Job` element.
abbrev add_children : List Child → Dict String → Dict String
add_children [] d = d
add_children (child ∷ more) d = add_children more (add_child child d)

abbrev pub dict_of : Item → Dict String
dict_of item = add_children item.children []

-- `root.findall(tag)`
abbrev pub find_all : String → List Item → List Item
find_all tag = filter (λ item. str_eq item.tag tag)

-- Text that is no XML gives no nodes.
unfoldable pub pbsnodes_to_node_list : World → String → List Node
pbsnodes_to_node_list w output = elim (w.parse_xml output) [
  | none ↦ []
  | some items ↦ map dict_of (find_all "Node" items)
]

-- The first node of that name. A node without a name raises.
abbrev pub node_named : String → List Node → Result (Option Node)
node_named name [] = ok none
node_named name (node ∷ nodes) =
    let rest = node_named name nodes in
    elim (lookup "name" node) [
      | none ↦ err key_error
      | some n ↦ if str_eq n name then ok (some node) else rest
    ]

-- `int(job["Job_Id"].split(".")[0].split("[")[0])`, from the text on
abbrev pub id_number : String → Option ℕ
id_number id = to_number (split_first b'[' (split_first b'.' id))

abbrev pub job_number : Job → Result ℕ
job_number job = elim (lookup "Job_Id" job.attrs) [
  | none ↦ err key_error
  | some id ↦ elim (id_number id) [ none ↦ err value_error | some n ↦ ok n ]
]

-- `config.max_number_of_jobs < 1 or num_of_jobs < config.max_number_of_jobs`
abbrev pub has_room : ℤ → ℕ → Bool
has_room limit n = ltb_ℤ limit (pos 1) || ltb_ℤ (pos n) limit

-- The queue is read only where queues are configured.
abbrev pub is_monitored : List String → Dict String → Result Bool
is_monitored [] attrs = ok true
is_monitored (q ∷ qs) attrs = elim (lookup "queue" attrs) [
  | none ↦ err key_error
  | some queue ↦ ok (any (str_eq queue) (q ∷ qs))
]

-- The jobs found so far: how many are idle, those that are kept, and the running ones.
pub record Jobs : Type 0 where
  pub total_number_of_idle_jobs : ℕ
  pub idle_jobs : List Job
  pub running_jobs : List Job

abbrev pub new_job : Dict String → Option ℤ → Job
new_job attrs priority = record { attrs = attrs; priority = priority; job_priority = none }

abbrev pub add_idle : Config → Dict String → Jobs → Jobs
add_idle c attrs jobs = record jobs {
  total_number_of_idle_jobs = jobs.total_number_of_idle_jobs + 1;
  idle_jobs =
      if has_room c.max_number_of_jobs (length jobs.idle_jobs)
      then jobs.idle_jobs ++ (new_job attrs (some (negsuc 0)) ∷ [])
      else jobs.idle_jobs;
}

abbrev pub add_running : String → Dict String → Jobs → Jobs
add_running state attrs jobs =
    if str_eq state "R"
    then record jobs { running_jobs = jobs.running_jobs ++ (new_job attrs none ∷ []) }
    else jobs

-- The body of the loop of `_qstat_to_job_list`.
unfoldable pub add_job : Config → Dict String → Jobs → Result Jobs
add_job c attrs jobs = elim (lookup "job_state" attrs) [
  | none ↦ err key_error
  | some state ↦
      if str_eq state "Q"
      then elim (is_monitored c.torque_queue_to_monitor attrs) [
        | err e ↦ err e
        | ok true ↦ ok (add_idle c attrs jobs)
        | ok false ↦ ok (add_running state attrs jobs)
      ]
      else ok (add_running state attrs jobs)
]

unfoldable pub add_jobs : Config → List Item → Jobs → Result Jobs
unfolding add_job
add_jobs c [] jobs = ok jobs
add_jobs c (item ∷ items) jobs = elim (add_job c (dict_of item) jobs) [
  | err e ↦ err e
  | ok jobs' ↦ add_jobs c items jobs'
]

-- The jobs with the keys that `sort` computes for them first.
abbrev pub with_keys : List Job → Result (List (ℕ × Job))
with_keys [] = ok []
with_keys (job ∷ jobs) = elim (job_number job) [
  | err e ↦ err e
  | ok n ↦ elim (with_keys jobs) [ err e ↦ err e | ok rest ↦ ok ((n, job) ∷ rest) ]
]

abbrev pub smaller_key : ℕ × Job → ℕ × Job → Bool
smaller_key a b = leb a.0 b.0

abbrev pub no_jobs : Jobs
no_jobs = record { total_number_of_idle_jobs = 0; idle_jobs = []; running_jobs = [] }

unfoldable pub sort_jobs : Jobs → Result Jobs
sort_jobs jobs = elim (with_keys jobs.idle_jobs) [
  | err e ↦ err e
  | ok keyed ↦ ok (record jobs { idle_jobs = map (λ k. k.1) (sort_by smaller_key keyed) })
]

abbrev pub parse_jobs : World → Config → String → Result Jobs
parse_jobs w c output = elim (w.parse_xml output) [
  | none ↦ err parse_error
  | some items ↦ elim (add_jobs c (find_all "Job" items) no_jobs) [
    | err e ↦ err e
    | ok jobs ↦ sort_jobs jobs
  ]
]

-- Whatever is raised, the answer is that there are no jobs.
unfoldable pub qstat_to_job_list : World → Config → String → Jobs
unfolding add_jobs sort_jobs
qstat_to_job_list w c output = elim (parse_jobs w c output) [ err e ↦ no_jobs | ok jobs ↦ jobs ]

-- `item.find(tag).text`
abbrev text_of : String → List Child → Result String
text_of tag [] = err attribute_error
text_of tag (child ∷ more) =
    let rest = text_of tag more in
    if str_eq child.tag tag
    then elim child.text [ none ↦ err attribute_error | some value ↦ ok value ]
    else rest

abbrev number_of : Option ℕ → Result ℕ
number_of none = err value_error
number_of (some n) = ok n

-- `int(s)` with a sign in front or none.
abbrev signed_of : String → Result ℤ
signed_of s = elim (drop_prefix "-" s) [
  | none ↦ elim (to_number s) [ none ↦ err value_error | some n ↦ ok (pos n) ]
  | some digits ↦ elim (to_number digits) [
    | none ↦ err value_error
    | some n ↦ ok (elim n [ zero ↦ pos 0 | suc m ↦ negsuc m ])
  ]
]

abbrev priority_of : Item → Result JobPriority
priority_of item = elim (text_of "Job_Id" item.children) [
  | err e ↦ err e
  | ok id ↦ elim (number_of (to_number (split_first b'.' id))) [
    | err e ↦ err e
    | ok n ↦ elim (text_of "Priority" item.children) [
      | err e ↦ err e
      | ok p ↦ elim (signed_of p) [
        | err e ↦ err e
        | ok v ↦ ok (record { job_id = n; priority = v })
      ]
    ]
  ]
]

abbrev priorities_of : List Item → Result (List JobPriority)
priorities_of [] = ok []
priorities_of (item ∷ items) = elim (priority_of item) [
  | err e ↦ err e
  | ok p ↦ elim (priorities_of items) [ err e ↦ err e | ok rest ↦ ok (p ∷ rest) ]
]

abbrev pub smaller_id : JobPriority → JobPriority → Bool
smaller_id a b = leb a.job_id b.job_id

abbrev sorted_priorities : Result (List JobPriority) → Result (List JobPriority)
sorted_priorities (err e) = err e
sorted_priorities (ok l) = ok (sort_by smaller_id l)

-- `_get_job_priorities`, which catches nothing.
unfoldable pub get_job_priorities : World → String → Result (List JobPriority)
get_job_priorities w output = if str_eq output "" then ok [] else elim (w.parse_xml output) [
  | none ↦ err parse_error
  | some items ↦ sorted_priorities (priorities_of items)
]

abbrev pub with_maui_up : Result (List JobPriority) → Result (Bool × List JobPriority)
with_maui_up (err e) = err e
with_maui_up (ok l) = ok (true, l)
