-- ===== src/Registry/Store/Isolation/Tables.antt =====
-- packages/registry-service/src/store.ts: the tables of the database, as they are read and replaced.
use toqar.Common.{String, Bool, refl}
use toqar.Json.{Value}
use toqar.Registry.Requests.{Account, Invoice, RolloutPolicy}
use toqar.Registry.Store.{
  TenantRow, TokenRow, EntryRow, AuditRow, ContextRow, KeyRow, RunRow, GrantRow, ExperimentRow,
  VerdictRow, FindingRow, DeliveryRow, RejectionRow, Timeline, Operation, audit,
}
use toqar.Registry.Table.Local.{insert-IsLocal}
use toqar.Registry.Store.Isolation.{Table, IsScoped, write-IsScoped}

abbrev pub tenants_table : Table TenantRow
tenants_table = record {
  get = λ db. db.tenants;
  set = λ rows db. record db { tenants = rows };
  get_only = λ t db. refl;
  set_only = λ t rows db. refl;
  set_get = λ db. refl;
}

abbrev pub tokens_table : Table TokenRow
tokens_table = record {
  get = λ db. db.tokens;
  set = λ rows db. record db { tokens = rows };
  get_only = λ t db. refl;
  set_only = λ t rows db. refl;
  set_get = λ db. refl;
}

abbrev pub entries_table : Table EntryRow
entries_table = record {
  get = λ db. db.entries;
  set = λ rows db. record db { entries = rows };
  get_only = λ t db. refl;
  set_only = λ t rows db. refl;
  set_get = λ db. refl;
}

abbrev pub audit_log_table : Table AuditRow
audit_log_table = record {
  get = λ db. db.audit_log;
  set = λ rows db. record db { audit_log = rows };
  get_only = λ t db. refl;
  set_only = λ t rows db. refl;
  set_get = λ db. refl;
}

abbrev pub contexts_table : Table ContextRow
contexts_table = record {
  get = λ db. db.contexts;
  set = λ rows db. record db { contexts = rows };
  get_only = λ t db. refl;
  set_only = λ t rows db. refl;
  set_get = λ db. refl;
}

abbrev pub keys_table : Table KeyRow
keys_table = record {
  get = λ db. db.keys;
  set = λ rows db. record db { keys = rows };
  get_only = λ t db. refl;
  set_only = λ t rows db. refl;
  set_get = λ db. refl;
}

abbrev pub runs_table : Table RunRow
runs_table = record {
  get = λ db. db.runs;
  set = λ rows db. record db { runs = rows };
  get_only = λ t db. refl;
  set_only = λ t rows db. refl;
  set_get = λ db. refl;
}

abbrev pub grants_table : Table GrantRow
grants_table = record {
  get = λ db. db.grants;
  set = λ rows db. record db { grants = rows };
  get_only = λ t db. refl;
  set_only = λ t rows db. refl;
  set_get = λ db. refl;
}

abbrev pub experiments_table : Table ExperimentRow
experiments_table = record {
  get = λ db. db.experiments;
  set = λ rows db. record db { experiments = rows };
  get_only = λ t db. refl;
  set_only = λ t rows db. refl;
  set_get = λ db. refl;
}

abbrev pub verdicts_table : Table VerdictRow
verdicts_table = record {
  get = λ db. db.verdicts;
  set = λ rows db. record db { verdicts = rows };
  get_only = λ t db. refl;
  set_only = λ t rows db. refl;
  set_get = λ db. refl;
}

abbrev pub policies_table : Table RolloutPolicy
policies_table = record {
  get = λ db. db.policies;
  set = λ rows db. record db { policies = rows };
  get_only = λ t db. refl;
  set_only = λ t rows db. refl;
  set_get = λ db. refl;
}

abbrev pub findings_table : Table FindingRow
findings_table = record {
  get = λ db. db.findings;
  set = λ rows db. record db { findings = rows };
  get_only = λ t db. refl;
  set_only = λ t rows db. refl;
  set_get = λ db. refl;
}

abbrev pub deliveries_table : Table DeliveryRow
deliveries_table = record {
  get = λ db. db.deliveries;
  set = λ rows db. record db { deliveries = rows };
  get_only = λ t db. refl;
  set_only = λ t rows db. refl;
  set_get = λ db. refl;
}

abbrev pub rejections_table : Table RejectionRow
rejections_table = record {
  get = λ db. db.rejections;
  set = λ rows db. record db { rejections = rows };
  get_only = λ t db. refl;
  set_only = λ t rows db. refl;
  set_get = λ db. refl;
}

abbrev pub accounts_table : Table Account
accounts_table = record {
  get = λ db. db.accounts;
  set = λ rows db. record db { accounts = rows };
  get_only = λ t db. refl;
  set_only = λ t rows db. refl;
  set_get = λ db. refl;
}

abbrev pub invoices_table : Table Invoice
invoices_table = record {
  get = λ db. db.invoices;
  set = λ rows db. record db { invoices = rows };
  get_only = λ t db. refl;
  set_only = λ t rows db. refl;
  set_get = λ db. refl;
}

abbrev pub optins_table : Table Bool
optins_table = record {
  get = λ db. db.optins;
  set = λ rows db. record db { optins = rows };
  get_only = λ t db. refl;
  set_only = λ t rows db. refl;
  set_get = λ db. refl;
}

abbrev pub timelines_table : Table Timeline
timelines_table = record {
  get = λ db. db.timelines;
  set = λ rows db. record db { timelines = rows };
  get_only = λ t db. refl;
  set_only = λ t rows db. refl;
  set_get = λ db. refl;
}

pub audit-IsScoped :
    (t actor : String) (operation : Operation) (event : String) (before after : Value)
    → IsScoped t (audit t actor operation event before after)
unfolding audit
audit-IsScoped t actor operation event before after =
    write-IsScoped t audit_log_table _ (insert-IsLocal t _)
