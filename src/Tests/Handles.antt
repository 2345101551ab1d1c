-- ===== src/Tests/Handles.antt =====
-- The etcd engine over libetcd, with a network that answers.
use libcluster.Prelude.{
  ◌==◌, ℕ, ◌+◌, true, false, Option, none, some, [], ◌∷◌, ◌≡◌, refl, ap, arith, if◌then◌else◌, inl,
}
use libcluster.Prelude.Int.{ℤ, pos, negsuc}
use libcluster.Prelude.Bytes.{Bytes, strcmp_eq}
use libcluster.Process.{Cluster, free, success, World, ok, Returns, ct_etcd}
use libcluster.Jansson.{Jansson}
use libcluster.Etcd.Client.{reply, EtcdClient}
use libcluster.Tally.{add_total, to_int}
use libcluster.Etcd.Keys.{sort_keys, insert_key}
use libcluster.Etcd.Directory.{value_key, entry_count, etcd_pass, etcd_tally}
use libcluster.Etcd.Session.{cluster_etcd_join, pass_after}
use libcluster.Libetcd.Http.{Transfer, etcd_curl_perform_json}
use libcluster.Libetcd.Http.Collected.{perform_json_document}
use libcluster.Libetcd.Directory as Directory
use libcluster.Libetcd.Directory.{node_key, nodes_key, key_key, enter_nodes}
use libcluster.Libetcd.Requests.{Net, Etcd, etcd_curl_create}
use libcluster.Libetcd.Calls.{etcd_dir_get}
use libcluster.Libetcd.Handles.{Handles, libetcd}
use libcluster.Libetcd.Handles.Session.{
  IsResponsive, HasOpen, IsFresh, IsSettled, etcd_session-IsSettled,
}
use libcluster.Etcd.Accounts.{IsAccounted}
use libcluster.Libetcd.Handles.Accounts.{table, libetcd-IsAccounted}
use libcluster.Libetcd.Handles.Destroyed.{etcd_engine, destroy_member-IsGone}
use libcluster.Membership.{Engine}
use libcluster.Clusters.Links.Laws.{IsListed}
use libcluster.Clusters.Store.{Store}
use libcluster.Clusters.Create.{cluster_destroy}
use libcluster.Clusters.Create.Ended.{IsGone}
use libcluster.Tests.Samples.{
  joined_connection, Doc, num, text, no_members, member, no_items, item, json, node_a, node_b,
  connection,
}

abbrev resolve : Bytes → Option Bytes → Bytes
resolve path none = path
resolve path (some base) = path

abbrev answer : Transfer
answer = record { code = 0; response = 200; pieces = node_a ∷ [] }

-- A URI is its text, and the world the number of requests.
abbrev network : Net Bytes ℕ
network = record {
  calloc = λ w. (true, w);
  uri_create_str = λ path base w. (some (resolve path base), w);
  uri_create_uri = λ uri w. (some uri, w);
  uri_stralloc = λ uri w. (some uri, w);
  curl_easy_init = λ w. (true, w);
  perform = λ r w. (answer, w + 1);
  perform_null = record { code = 43; response = 0; pieces = [] };
  pthread_create = λ w. (true, w);
}

-- A directory with instance "b", which has one worker.
abbrev entry : Doc
entry = member key_key (text (b'/' ∷ node_b)) (member value_key (num (pos 1)) no_members)

abbrev document : Doc
document = member node_key (member nodes_key (item entry no_items) no_members) no_members

abbrev one_member : Doc
one_member = member node_b entry no_members

abbrev reader : Jansson
reader = record json { loads = λ s. some document }

abbrev client : EtcdClient reader (Handles Bytes ℕ)
client = libetcd network reader true

read : Directory.etcd_dir_get reader (pos 0, some document) ≡ ok (reply one_member)
unfolding Directory.etcd_dir_get enter_nodes Directory.entry_name strcmp_eq
read = refl

answered : etcd_curl_perform_json reader true answer ≡ (pos 0, some document)
answered = perform_json_document reader answer refl (omega arith) (omega arith) (omega arith)

passes : (i : Bytes) → (base total : ℤ) × (etcd_pass reader one_member i ≡ ok (base, total))
unfolding etcd_pass sort_keys insert_key etcd_tally entry_count strcmp_eq to_int add_total
passes i = (if strcmp_eq node_b i then pos 0 else negsuc 0, pos 1, refl)

-- What a read of an open directory comes to.
dir_get-eq :
    (e : Etcd Bytes) (w : ℕ) → etcd_dir_get network reader true e w ≡ (ok (reply one_member), w + 1)
unfolding etcd_dir_get etcd_curl_create
dir_get-eq e w = rw (answered, read) refl

responsive : IsResponsive network reader true
responsive = record {
  answers = λ e i w.
      let (base, total, run) = passes i in
      inl (one_member, base, total, ap (λ r. r.0) (dir_get-eq e w), run);
}

abbrev handle : Etcd Bytes
handle = record { uri = node_a; verbose = false }

-- No cluster over SQL is there.
abbrev sql_engine : Engine (Handles Bytes ℕ)
sql_engine = record { join = λ w. ok (negsuc 0, w); leave = λ w. ok (pos 0, w) }

-- Another connection of the process has the handle 0.
abbrev others : Handles Bytes ℕ
others = record { blocks = (0, handle) ∷ []; next = 1; misused = false; net = 0 }

abbrev start : World (Handles Bytes ℕ)
start = record {
  cluster = record (connection ct_etcd) { etcd_envdir = none };
  lock = free;
  errno = success;
  calls = [];
  server = others;
}

start-IsFresh : IsFresh start
start-IsFresh = record {
  unlocked = refl;
  has_registry = (b'r' ∷ [], refl);
  ready = record {
    apart = refl;
    has_name = (node_b, refl);
    has_key = (b'k' ∷ [], refl);
    has_env = (b'e' ∷ [], refl);
    partition_intact = inl refl;
  };
  no_clusterdir = refl;
  no_partitiondir = refl;
  no_envdir = refl;
}

etcd_session-IsSettled_example :
    Returns
      (cluster_etcd_join reader client true start)
      (IsSettled network reader true pass_after (0 ∷ []))
etcd_session-IsSettled_example =
    etcd_session-IsSettled network reader true responsive pass_after start start-IsFresh refl

libetcd-IsAccounted_example : IsAccounted reader client table
libetcd-IsAccounted_example = libetcd-IsAccounted network reader true

-- The process with that connection as a member, as its only cluster, at the address 5.
abbrev member_cluster : Cluster
member_cluster = record (joined_connection ct_etcd) {
  etcd_root = some 1;
  etcd_clusterdir = some 2;
  etcd_envdir = some 3;
}

abbrev process : Store (Handles Bytes ℕ)
process = record {
  links = record { first = some 5; last = some 5; prev = λ p. none; next = λ p. none };
  list_lock = free;
  bodies = λ p.
      if p == 5 then some (record { cluster = member_cluster; lock = free; calls = [] }) else none;
  errno = success;
  server = record others {
    blocks = (3, handle) ∷ (2, handle) ∷ (1, handle) ∷ (0, handle) ∷ [];
    next = 4;
  };
}

is_listed : IsListed process.links (5 ∷ [])
is_listed = record { starts = refl; chained = (refl, refl, refl); distinct = (refl, tt) }

destroy_member-IsGone_example :
    Returns
      (cluster_destroy (etcd_engine reader client pass_after) sql_engine 5 process)
      (λ r. (r.0 ≡ pos 0) × IsGone 5 [] process r.1 × HasOpen (0 ∷ []) r.1.server)
destroy_member-IsGone_example =
    destroy_member-IsGone network reader true pass_after sql_engine responsive 5 (0 ∷ []) [] []
      process (record { cluster = member_cluster; lock = free; calls = [] }) is_listed refl refl
      refl
      (record { unlocked = refl; joined = refl; has_envdir = (3, refl); has_name = (node_b, refl) })
      (record {
        instid_intact = tt;
        key_intact = tt;
        env_intact = tt;
        registry_intact = tt;
        partition_intact = tt;
      })
      (refl, refl)
