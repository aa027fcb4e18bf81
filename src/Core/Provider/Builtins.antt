-- ===== src/Core/Provider/Builtins.antt =====
-- The built-in providers of crates/secd-core/src/provider.rs.
use secd.Base.{Bool, true, false, List, [], ◌∷◌, String}
use secd.Base.Text.{codes}
use secd.Core.Provider.{Field, Provider}

abbrev field : Bool → Bool → String → String → Field
field secret optional key env = record {
  key = codes key;
  secret = secret;
  optional = optional;
  env = codes env;
}

abbrev req : String → String → Field
req = field false false

abbrev req_secret : String → String → Field
req_secret = field true false

abbrev opt : String → String → Field
opt = field false true

abbrev opt_secret : String → String → Field
opt_secret = field true true

-- The loop over the five unseal shares is written out.
abbrev vault_fields : List Field
vault_fields =
    req "addr" "VAULT_ADDR"
    ∷ req_secret "role_id" "VAULT_ROLE_ID"
    ∷ req_secret "secret_id" "VAULT_SECRET_ID"
    ∷ opt_secret "root_token" "VAULT_TOKEN"
    ∷ opt_secret "share_1" "VAULT_UNSEAL_SHARE_1"
    ∷ opt_secret "share_2" "VAULT_UNSEAL_SHARE_2"
    ∷ opt_secret "share_3" "VAULT_UNSEAL_SHARE_3"
    ∷ opt_secret "share_4" "VAULT_UNSEAL_SHARE_4"
    ∷ opt_secret "share_5" "VAULT_UNSEAL_SHARE_5"
    ∷ opt "mount" "VAULT_MOUNT"
    ∷ opt "prefix" "VAULT_PREFIX"
    ∷ opt "namespace" "VAULT_NAMESPACE"
    ∷ []

abbrev builtin : String → String → List Field → Provider
builtin name title fields = record { name = codes name; title = codes title; fields = fields }

unfoldable pub builtins : List Provider
builtins =
    builtin "cloudflare" "Cloudflare" (
      req "account_id" "CLOUDFLARE_ACCOUNT_ID"
      ∷ req_secret "api_token" "CLOUDFLARE_API_TOKEN"
      ∷ opt "access_key_id" "AWS_ACCESS_KEY_ID"
      ∷ opt_secret "secret_access_key" "AWS_SECRET_ACCESS_KEY"
      ∷ opt "endpoint" "AWS_ENDPOINT_URL"
      ∷ opt "bucket" "R2_BUCKET"
      ∷ opt "zone_id" "CLOUDFLARE_ZONE_ID"
      ∷ opt "email" "CLOUDFLARE_EMAIL"
      ∷ opt_secret "global_api_key" "CLOUDFLARE_API_KEY"
      ∷ [])
    ∷ builtin "aws" "AWS" (
        req "access_key_id" "AWS_ACCESS_KEY_ID"
        ∷ req_secret "secret_access_key" "AWS_SECRET_ACCESS_KEY"
        ∷ opt_secret "session_token" "AWS_SESSION_TOKEN"
        ∷ opt "region" "AWS_DEFAULT_REGION"
        ∷ [])
    ∷ builtin "s3" "S3" (
        req "access_key_id" "AWS_ACCESS_KEY_ID"
        ∷ req_secret "secret_access_key" "AWS_SECRET_ACCESS_KEY"
        ∷ req "endpoint" "AWS_ENDPOINT_URL"
        ∷ opt "region" "AWS_REGION"
        ∷ opt "bucket" "S3_BUCKET"
        ∷ [])
    ∷ builtin "github" "GitHub" (req_secret "token" "GITHUB_TOKEN" ∷ opt "user" "GITHUB_USER" ∷ [])
    ∷ builtin "gitea" "Gitea"
        (req_secret "token" "GITEA_TOKEN" ∷ req "url" "GITEA_URL" ∷ opt "user" "GITEA_USER" ∷ [])
    ∷ builtin "gitlab" "GitLab" (req_secret "token" "GITLAB_TOKEN" ∷ opt "url" "GITLAB_URL" ∷ [])
    ∷ builtin "slack" "Slack"
        (req_secret "bot_token" "SLACK_BOT_TOKEN" ∷ opt_secret "app_token" "SLACK_APP_TOKEN" ∷ [])
    ∷ builtin "digitalocean" "DigitalOcean" (req_secret "token" "DIGITALOCEAN_TOKEN" ∷ [])
    ∷ builtin "npm" "npm" (req_secret "token" "NPM_TOKEN" ∷ [])
    ∷ builtin "xai" "xAI" (req_secret "api_key" "XAI_API_KEY" ∷ [])
    ∷ builtin "sendgrid" "SendGrid" (req_secret "api_key" "SENDGRID_API_KEY" ∷ [])
    ∷ builtin "pypi" "PyPI" (req_secret "token" "TWINE_PASSWORD" ∷ opt "user" "TWINE_USERNAME" ∷ [])
    ∷ builtin "anthropic" "Anthropic" (req_secret "api_key" "ANTHROPIC_API_KEY" ∷ [])
    ∷ builtin "openai" "OpenAI"
        (req_secret "api_key" "OPENAI_API_KEY" ∷ opt "org_id" "OPENAI_ORG_ID" ∷ [])
    ∷ builtin "vault" "Vault" vault_fields
    ∷ []
