-- ===== src/Wire/Codes.antt =====
-- The numbers of record types, classes, response codes and operation codes.
use rust_encrypted_dns_serve.Base.{ℕ}

-- record types
abbrev pub a_type : ℕ
a_type = 1

abbrev pub ns_type : ℕ
ns_type = 2

abbrev pub cname_type : ℕ
cname_type = 5

abbrev pub soa_type : ℕ
soa_type = 6

abbrev pub aaaa_type : ℕ
aaaa_type = 28

-- `DNAME_RECORD_TYPE`
abbrev pub dname_record_type : ℕ
dname_record_type = 39

abbrev pub opt_type : ℕ
opt_type = 41

abbrev pub ds_type : ℕ
ds_type = 43

abbrev pub rrsig_type : ℕ
rrsig_type = 46

abbrev pub nsec_type : ℕ
nsec_type = 47

abbrev pub dnskey_type : ℕ
dnskey_type = 48

abbrev pub nsec3_type : ℕ
nsec3_type = 50

abbrev pub any_type : ℕ
any_type = 255

-- the class `IN`
abbrev pub in_class : ℕ
in_class = 1

-- response codes
abbrev pub no_error : ℕ
no_error = 0

abbrev pub form_err : ℕ
form_err = 1

abbrev pub serv_fail : ℕ
serv_fail = 2

abbrev pub nx_domain : ℕ
nx_domain = 3

abbrev pub yx_domain : ℕ
yx_domain = 6

-- the operation code `Query`
abbrev pub query_op : ℕ
query_op = 0
